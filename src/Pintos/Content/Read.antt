-- ===== src/Pintos/Content/Read.antt =====
-- inode_read_at of filesys/inode.c, against the bytes of the device.
use sum.Prelude.{
  ℕ, zero, suc, ◌+◌, ◌-◌, ◌*◌, ◌/◌, ◌%◌, ◌^◌, ◌≤◌, ◌<◌, ◌≡◌, refl, true, false, ◌||◌, List, [],
  ◌++◌, length, take, drop, length-take, length-drop, length-append, get_elem?, get_elem?-take,
  get_elem?-drop, get_elem?-append, take_all, ltb, ◌==◌, if◌then◌else◌, done, arith, subst, ap, ◌∙◌,
  sym, Bool-cases, inl, inr,
}
use sum.Pintos.Block.{Block, IsBlock, sector_size, read, byte_at}
use sum.Pintos.Content.{
  Inode, bytes_to_sectors, byte_to_sector, chunk_size, is_whole, read_from, read_at,
}

-- The data of the inode lie on the device.
pub record IsFile (d : Block) (n : Inode) : Type 0 where
  pub inside : n.content.start + bytes_to_sectors n.content.length ≤ d.size
  pub small : d.size < 2 ^ 32

-- The address of a byte of the file.
abbrev pub address : Inode → ℕ → ℕ
address n offset = n.content.start * sector_size + offset

-- The number of bytes that can be read or written.
abbrev pub available : Inode → ℕ → ℕ → ℕ
available n size offset =
    let left = n.content.length - offset in if ltb size left then size else left

-- The bytes are those of the device from an address on.
abbrev pub IsCopy : Block → ℕ → List ℕ → Type 0
IsCopy d a bytes = (i : ℕ) → i < length bytes → get_elem? bytes i ≡ byte_at d (a + i)

IsCopy-append :
    (d : Block) (a : ℕ) (p q : List ℕ)
    → IsCopy d a p
    → IsCopy d (a + length p) q
    → IsCopy d a (p ++ q)
IsCopy-append d a p q hp hq i lt = elim (Bool-cases (ltb i (length p))) [
  | inl early ↦ get_elem?-append p q i ∙ ground (arith, early, hp i)
  | inr late ↦
      let e : a + length p + (i - length p) ≡ a + i = ground arith in
      let fits : i - length p < length q = ground (arith, length-append p q) in
      get_elem?-append p q i ∙ ground (arith, late) ∙ hq (i - length p) fits ∙ ap (byte_at d) e
]

-- The sector of a byte of the file.
pub sector-lt :
    (d : Block) (n : Inode) (offset : ℕ)
    → IsFile d n
    → offset < n.content.length
    → (byte_to_sector n offset ≡ n.content.start + offset / sector_size)
      × (n.content.start + offset / sector_size < d.size)
sector-lt d n offset h lt =
    let inside : n.content.start + offset / sector_size < d.size = omega (arith, h.inside) in
    let small = h.small in (ground arith, inside)

module _ (d : Block) (n : Inode) (full : IsBlock d) where
  -- The piece of one round.
  piece-IsCopy :
      (offset chunk : ℕ)
      → offset % sector_size + chunk ≤ sector_size
      → let s = d.sectors (n.content.start + offset / sector_size) in
        (length (take chunk (drop (offset % sector_size) s)) ≡ chunk)
        × IsCopy d (address n offset) (take chunk (drop (offset % sector_size) s))
  unfolding byte_at
  piece-IsCopy offset chunk fits =
      let s = d.sectors (n.content.start + offset / sector_size) in
      let whole = full.full (n.content.start + offset / sector_size) in
      let ofs = offset % sector_size in
      let size : length (take chunk (drop ofs s)) ≡ chunk =
        length-take chunk (drop ofs s) (omega (arith, length-drop ofs s, whole)) in
      (
        size,
        λ i lt.
            let same_sector : (address n offset + i) / sector_size
                ≡ n.content.start + offset / sector_size =
              omega (arith, size) in
            let place : (address n offset + i) % sector_size ≡ ofs + i = omega (arith, size) in
            get_elem?-take chunk (drop ofs s) i
            ∙ ground (arith, size)
            ∙ get_elem?-drop ofs s i
            ∙ ground (arith, same_sector, place),
      )

  round-read : (s : ℕ) → s < d.size → read d s ≡ done (d.sectors s)
  unfolding read
  round-read s lt = ground arith

  -- One round of the loop.
  read_step :
      (fuel size offset : ℕ) (bytes : List ℕ)
      → IsFile d n
      → 0 < chunk_size n size offset
      → read_from true fuel d n
          (size - chunk_size n size offset)
          (offset + chunk_size n size offset)
        ≡ done bytes
      → read_from true (suc fuel) d n size offset
        ≡ done (
            take
              (chunk_size n size offset)
              (drop (offset % sector_size) (d.sectors (n.content.start + offset / sector_size)))
            ++ bytes)
  unfolding read_from
  read_step fuel size offset bytes h more rest =
      let c = chunk_size n size offset in
      let s = n.content.start + offset / sector_size in
      let (sector, inside) = sector-lt d n offset h (ground arith) in
      let got : read d (byte_to_sector n offset) ≡ done (d.sectors s) =
        ap (read d) sector ∙ round-read s inside in
      let goes : (size == 0 || c == 0) ≡ false = ground arith in
      elim (Bool-cases (is_whole offset c)) [
        | inl whole ↦
            let size_c : c ≡ 512 = ground arith in
            let at_0 : offset % sector_size ≡ 0 = ground arith in
            let all : take c (drop (offset % sector_size) (d.sectors s)) ≡ d.sectors s =
              ap (λ k. take k (drop (offset % sector_size) (d.sectors s))) size_c
              ∙ ap (λ o. take 512 (drop o (d.sectors s))) at_0
              ∙ take_all 512 (d.sectors s) (full.full s) in
            rw goes (rw whole (rw got (rw rest (ap (λ x. done (x ++ bytes)) (sym all)))))
        | inr part ↦ rw goes (rw part (rw got (rw rest refl)))
      ]

  -- With fuel for every byte the loop returns the bytes of the file from the offset on.
  read_from-IsCopy :
      (fuel size offset : ℕ)
      → IsFile d n
      → size < fuel
      → (bytes : List ℕ) × (read_from true fuel d n size offset ≡ done bytes)
        × (length bytes ≡ available n size offset)
        × IsCopy d (address n offset) bytes
  unfolding read_from
  read_from-IsCopy zero size offset h f = absurd (omega arith)
  read_from-IsCopy (suc fuel) size offset h f =
      let c = chunk_size n size offset in
      elim (Bool-cases (c == 0)) [
        | inl stop ↦ ([], ground (arith, stop), ground arith, λ i lt. absurd (omega arith))
        | inr go ↦
            let more : 0 < c = ground arith in
            let fits : offset % sector_size + c ≤ sector_size = ground arith in
            let (piece_size, piece) = piece-IsCopy offset c fits in
            let (bytes, rest, rest_size, copy) =
              read_from-IsCopy fuel (size - c) (offset + c) h (ground arith) in
            let p =
              take c (
                drop (offset % sector_size) (d.sectors (n.content.start + offset / sector_size))) in
            let next : address n (offset + c) ≡ address n offset + length p =
              omega (arith, piece_size) in
            (
              p ++ bytes,
              read_step fuel size offset bytes h more rest,
              length-append p bytes ∙ ground (arith, piece_size, rest_size),
              IsCopy-append d (address n offset) p bytes piece
                  (subst (λ a. IsCopy d a bytes) next copy),
            )
      ]

-- A read with memory of a file whose data lie on the device returns the bytes of the device at
-- the addresses of the file, as many as were asked for or as the file has from the offset on, and
-- never reads past the device.
pub read_at_lem :
    (d : Block) (n : Inode) (size offset : ℕ)
    → IsBlock d
    → IsFile d n
    → (bytes : List ℕ) × (read_at true d n size offset ≡ done bytes)
      × (length bytes ≡ available n size offset)
      × IsCopy d (address n offset) bytes
unfolding read_at
read_at_lem d n size offset full h =
    read_from-IsCopy d n full (size + 1) size offset h (omega arith)
