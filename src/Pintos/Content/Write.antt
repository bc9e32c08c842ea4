-- ===== src/Pintos/Content/Write.antt =====
-- inode_write_at of filesys/inode.c, against the bytes of the device; and a read after it.
use sum.Prelude.{
  ℕ, zero, suc, ◌+◌, ◌-◌, ◌*◌, ◌/◌, ◌%◌, ◌≤◌, ◌<◌, ◌≡◌, refl, true, false, ◌&&◌, ◌||◌, none, List,
  ◌++◌, length, take, drop, list_ext, length-take, length-drop, length-append, get_elem?,
  get_elem?-take, get_elem?-drop, get_elem?-append, ltb, ◌==◌, if◌then◌else◌, done, arith, ap, ◌∙◌,
  sym, subst, Bool-cases, inl, inr, ◌⊎◌,
}
use sum.Pintos.Block.{Block, IsBlock, sector_size, read, write, byte_at, with_sector, write_lem}
use sum.Pintos.Bitmap.Multiple.{within}
use sum.Pintos.Content.{
  read_at, Inode, byte_to_sector, chunk_size, is_whole, bounce, write_from, write_at,
}
use sum.Pintos.Content.Read.{read_at_lem, IsFile, address, available, sector-lt}

-- A sector with `c` bytes of a buffer put in at `ofs`.
abbrev pub spliced : List ℕ → ℕ → ℕ → List ℕ → List ℕ
spliced old ofs c bytes = take ofs old ++ (take c bytes ++ drop (ofs + c) old)

spliced_lem :
    (old bytes : List ℕ) (ofs c k : ℕ)
    → ofs + c ≤ length old
    → c ≤ length bytes
    → (length (spliced old ofs c bytes) ≡ length old)
      × (get_elem? (spliced old ofs c bytes) k
          ≡ (if within ofs c k then get_elem? bytes (k - ofs) else get_elem? old k))
spliced_lem old bytes ofs c k fits enough =
    let p = take ofs old in
    let q = take c bytes in
    let r = drop (ofs + c) old in
    let lp : length p ≡ ofs = length-take ofs old (omega arith) in
    let lq : length q ≡ c = length-take c bytes enough in
    let lr : length r ≡ length old - (ofs + c) = length-drop (ofs + c) old in
    (
      omega (arith, length-append p (q ++ r), length-append q r, lp, lq, lr),
      ground (
        arith,
        get_elem?-append p (q ++ r) k,
        get_elem?-append q r (k - ofs),
        lp,
        lq,
        get_elem?-take ofs old k,
        get_elem?-take c bytes (k - ofs),
        get_elem?-drop (ofs + c) old (k - ofs - c),
      ),
    )

-- The device with `c` bytes of the buffer written at an address.
abbrev pub Written : Block → Block → ℕ → ℕ → List ℕ → Type 0
Written d d' a c bytes =
    IsBlock d'
    × (d'.size ≡ d.size)
    × ((i : ℕ) → byte_at d' i ≡ (if within a c i then get_elem? bytes (i - a) else byte_at d i))

-- What one round writes.
round-Written :
    (d : Block) (n : Inode) (bytes new : List ℕ) (offset c : ℕ)
    → IsBlock d
    → let s = n.content.start + offset / sector_size in
      let ofs = offset % sector_size in
      ofs + c ≤ sector_size
      → s < d.size
      → (length new ≡ sector_size)
        × ((k : ℕ)
            → k < sector_size
            → get_elem? new k
              ≡ (if within ofs c k then get_elem? bytes (k - ofs) else get_elem? (d.sectors s) k))
      → (write d s new ≡ done (with_sector d s new))
        × Written d (with_sector d s new) (address n offset) c bytes
unfolding byte_at
round-Written d n bytes new offset c full fits inside (whole, content) =
    let s = n.content.start + offset / sector_size in
    let (made, valid, after) = write_lem d s new full inside whole in
    (
      made,
      (
        valid,
        refl,
        λ i. elim (Bool-cases (s == i / sector_size)) [
          | inl here ↦
              let same : s ≡ i / sector_size = ground arith in
              let back : i % sector_size - offset % sector_size ≡ i - address n offset =
                omega (arith, same) in
              let inside' : within (offset % sector_size) c (i % sector_size)
                  ≡ within (address n offset) c i =
                ground (arith, same) in
              after i
              ∙ ground (arith, content (i % sector_size) (omega arith), here, same, back, inside')
          | inr elsewhere ↦
              let outside : within (address n offset) c i ≡ false = ground arith in
              after i ∙ ground (arith, elsewhere, outside)
        ],
      ),
    )

-- The sector that the loop builds for a piece.
bounce_lem :
    (d : Block) (s : ℕ) (bytes : List ℕ) (ofs c : ℕ)
    → s < d.size
    → ofs + c ≤ sector_size
    → (ofs == 0 && c == sector_size) ≡ false
    → bounce true d s bytes ofs c ≡ done (spliced (d.sectors s) ofs c bytes)
unfolding bounce read
bounce_lem d s bytes ofs c inside fits part = ground arith

-- One round of the loop.
write_step :
    (d : Block) (n : Inode) (fuel offset w : ℕ) (bytes : List ℕ)
    → IsBlock d
    → IsFile d n
    → let c = chunk_size n (length bytes) offset in
      0 < c
      → (d1 : Block) × (write_from true (suc fuel) d n bytes offset w
          ≡ write_from true fuel d1 n (drop c bytes) (offset + c) (w + c))
        × Written d d1 (address n offset) c bytes
unfolding write_from
write_step d n fuel offset w bytes full h more =
    let c = chunk_size n (length bytes) offset in
    let ofs = offset % sector_size in
    let s = n.content.start + offset / sector_size in
    let (sector, inside) = sector-lt d n offset h (ground arith) in
    let goes : (length bytes == 0 || c == 0) ≡ false = ground arith in
    let fits : ofs + c ≤ sector_size = ground arith in
    let enough : c ≤ length bytes = ground arith in
    elim (Bool-cases (is_whole offset c)) [
      | inl whole ↦
          let c_512 : c ≡ 512 = ground arith in
          let at_0 : ofs ≡ 0 = ground arith in
          let whole_at : (k : ℕ)
              → k < sector_size
              → (if ltb k c then get_elem? bytes k else none) ≡ (
                  if within ofs c k then get_elem? bytes (k - ofs) else get_elem? (d.sectors s) k) =
            λ k lt.
              let early : ltb k c ≡ true = ground (arith, c_512) in
              let inner : within ofs c k ≡ true = ground (arith, c_512, at_0) in
              let back : k ≡ k - ofs = omega (arith, at_0) in
              rw early (rw inner (ap (get_elem? bytes) back)) in
          let new = take c bytes in
          let size : length new ≡ sector_size = length-take c bytes enough ∙ ground arith in
          let (made, effect) =
            round-Written d n bytes new offset c full fits inside
              (size, λ k lt. get_elem?-take c bytes k ∙ whole_at k lt) in
          let wrote : write d (byte_to_sector n offset) new ≡ done (with_sector d s new) =
            ap (λ t. write d t new) sector ∙ made in
          (with_sector d s new, rw goes (rw whole (rw wrote refl)), effect)
      | inr part ↦
          let new = spliced (d.sectors s) ofs c bytes in
          let old_size = full.full s in
          let splice =
            λ (k : ℕ). spliced_lem (d.sectors s) bytes ofs c k (omega (arith, old_size)) enough in
          let (made, effect) =
            round-Written d n bytes new offset c full fits inside
              ((splice 0).0 ∙ old_size, λ k lt. (splice k).1) in
          let wrote : write d (byte_to_sector n offset) new ≡ done (with_sector d s new) =
            ap (λ t. write d t new) sector ∙ made in
          let built : bounce true d (byte_to_sector n offset) bytes ofs c ≡ done new =
            ap (λ t. bounce true d t bytes ofs c) sector
            ∙ bounce_lem d s bytes ofs c inside fits part in
          (with_sector d s new, rw goes (rw part (rw built (rw wrote refl))), effect)
    ]

-- The rest of the buffer after the first piece.
Written-then :
    (d d1 d2 : Block) (a c m : ℕ) (bytes : List ℕ)
    → Written d d1 a c bytes
    → Written d1 d2 (a + c) m (drop c bytes)
    → Written d d2 a (c + m) bytes
Written-then d d1 d2 a c m bytes (v1, s1, e1) (v2, s2, e2) =
    (v2, s2 ∙ s1, λ i. ground (arith, e1 i, e2 i, get_elem?-drop c bytes (i - (a + c))))

-- A piece and what is left after it.
available-split :
    (n : Inode) (size offset : ℕ)
    → available n size offset
      ≡ chunk_size n size offset
        + available n (size - chunk_size n size offset) (offset + chunk_size n size offset)
available-split n size offset = ground arith

write_from-Written :
    (d : Block) (n : Inode) (fuel offset w : ℕ) (bytes : List ℕ)
    → IsBlock d
    → IsFile d n
    → length bytes < fuel
    → (d' : Block) × (write_from true fuel d n bytes offset w
        ≡ done (w + available n (length bytes) offset, d'))
      × Written d d' (address n offset) (available n (length bytes) offset) bytes
unfolding write_from
write_from-Written d n zero offset w bytes full h f = absurd (omega arith)
write_from-Written d n (suc fuel) offset w bytes full h f =
    let c = chunk_size n (length bytes) offset in
    elim (Bool-cases (c == 0)) [
      | inl stop ↦
          let nothing : available n (length bytes) offset ≡ 0 = ground arith in
          (d, ground (arith, stop, nothing), (full, refl, λ i. ground (arith, nothing)))
      | inr go ↦
          let (d1, step, first) = write_step d n fuel offset w bytes full h (ground arith) in
          let left = length-drop c bytes in
          let (d2, rest, second) =
            write_from-Written d1 n fuel (offset + c) (w + c) (drop c bytes) first.0
              (record {
                inside = omega (arith, h.inside, first.1);
                small = omega (arith, h.small, first.1);
              })
              (ground (arith, left)) in
          let count : available n (length bytes) offset
              ≡ c + available n (length (drop c bytes)) (offset + c) =
            available-split n (length bytes) offset
            ∙ ap (λ x. c + available n x (offset + c)) (sym left) in
          let total : w + c + available n (length (drop c bytes)) (offset + c)
              ≡ w + available n (length bytes) offset =
            omega (arith, count) in
          let next : address n (offset + c) ≡ address n offset + c = omega arith in
          (
            d2,
            step ∙ rest ∙ ap (λ x. done (x, d2)) total,
            subst (λ x. Written d d2 (address n offset) x bytes) (sym count)
                (Written-then d d1 d2 (address n offset) c
                  (available n (length (drop c bytes)) (offset + c)) bytes first
                  (subst
                    (λ a.
                      Written d1 d2 a (available n (length (drop c bytes)) (offset + c))
                        (drop c bytes))
                    next second)),
          )
    ]

-- How many bytes a write puts in: none if writes are denied.
abbrev pub write_count : Inode → List ℕ → ℕ → ℕ
write_count n bytes offset = if n.deny_write_cnt == 0 then available n (length bytes) offset else 0

-- A write with memory to a file whose data lie on a device that can be written returns 0 if
-- writes are denied, and else the number of bytes up to the end of the file; exactly these bytes
-- of the device change, to those of the buffer.
pub write_at_lem :
    (d : Block) (n : Inode) (bytes : List ℕ) (offset : ℕ)
    → IsBlock d
    → IsFile d n
    → (d' : Block) × (write_at true d n bytes offset ≡ done (write_count n bytes offset, d'))
      × Written d d' (address n offset) (write_count n bytes offset) bytes
unfolding write_at
write_at_lem d n bytes offset full h = elim (Bool-cases (n.deny_write_cnt == 0)) [
  | inl open' ↦
      let (d', runs, effect) =
        write_from-Written d n (length bytes + 1) offset 0 bytes full h (omega arith) in
      let count : write_count n bytes offset ≡ available n (length bytes) offset = rw open' refl in
      (
        d',
        rw open' (runs ∙ ap (λ x. done (x, d')) (omega arith)),
        subst (λ x. Written d d' (address n offset) x bytes) (sym count) effect,
      )
  | inr denied ↦ (d, rw denied refl, (full, refl, λ i. ground (arith, denied)))
]

-- Read after write.
pub read_at-write_at :
    (d : Block) (n : Inode) (bytes : List ℕ) (offset : ℕ)
    → IsBlock d
    → IsFile d n
    → n.deny_write_cnt ≡ 0
    → offset + length bytes ≤ n.content.length
    → (d' : Block) × (write_at true d n bytes offset ≡ done (length bytes, d'))
      × (read_at true d' n (length bytes) offset ≡ done bytes)
      × Written d d' (address n offset) (length bytes) bytes
read_at-write_at d n bytes offset full h writable fits =
    let (d', runs, effect) = write_at_lem d n bytes offset full h in
    let all : write_count n bytes offset ≡ length bytes = ground (arith, writable) in
    let (got, reads, size, copy) = read_at_lem d' n (length bytes) offset effect.0 (record {
      inside = omega (arith, h.inside, effect.1);
      small = omega (arith, h.small, effect.1);
    }) in
    let same_size : length got ≡ length bytes = size ∙ ground arith in
    let after = effect.2 in
    (
      d',
      runs ∙ ap (λ x. done (x, d')) all,
      reads
          ∙ ap done (
              list_ext got bytes same_size (λ i lt.
                let back : address n offset + i - address n offset ≡ i = omega arith in
                copy i lt ∙ after (address n offset + i) ∙ ground (arith, all, same_size, back))),
      subst (λ x. Written d d' (address n offset) x bytes) all effect,
    )

-- A sector that no written byte lies in stays as it is.
pub Written-apart :
    (d d' : Block) (a c t : ℕ) (bytes : List ℕ)
    → IsBlock d
    → Written d d' a c bytes
    → t * sector_size + sector_size ≤ a ⊎ a + c ≤ t * sector_size
    → d'.sectors t ≡ d.sectors t
unfolding byte_at
Written-apart d d' a c t bytes full (full', size, effect) apart =
    list_ext (d'.sectors t) (d.sectors t) (full'.full t ∙ sym (full.full t)) (λ i lt.
      let short : i < 512 = omega (arith, full'.full t, lt) in
      let place : (t * sector_size + i) / sector_size ≡ t = omega arith in
      let inside : (t * sector_size + i) % sector_size ≡ i = omega arith in
      let other : within a c (t * sector_size + i) ≡ false = ground (arith, apart, short) in
      let same = effect (t * sector_size + i) in
      let same' : byte_at d' (t * sector_size + i) ≡ byte_at d (t * sector_size + i) =
        same ∙ rw other refl in
      rw (place, inside) at same')
