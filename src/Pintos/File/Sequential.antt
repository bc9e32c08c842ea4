-- ===== src/Pintos/File/Sequential.antt =====
-- file_read, file_write and file_seek of filesys/file.c one after another.
use sum.Prelude.{
  ℕ, ◌+◌, ◌-◌, ◌≤◌, ◌≡◌, refl, true, some, List, ◌++◌, length, length-append, get_elem?-append,
  list_ext, ltb, done, arith, ap, ◌∙◌, sym, Bool-cases, inl, inr,
}
use sum.Pintos.Block.{IsBlock, byte_at}
use sum.Pintos.Content
use sum.Pintos.Content.{Inode}
use sum.Pintos.Content.Read.{IsFile, address, available, read_at_lem}
use sum.Pintos.Content.Write.{read_at-write_at}
use sum.Pintos.FreeMap.{Fs, find}
use sum.Pintos.File.{File, inode_of, read, write, seek}

-- The file after some bytes.
abbrev pub advanced : File → ℕ → File
advanced x count = record x { pos = x.pos + count }

read_lem :
    (f : Fs) (x : File) (n : Inode) (count : ℕ) (bytes : List ℕ)
    → find f.open_inodes x.inode ≡ some n
    → Content.read_at true f.disk n count x.pos ≡ done bytes
    → read true f x count ≡ done (bytes, advanced x (length bytes))
unfolding read
read_lem f x n count bytes found reads = rw (inode_of, found) (rw reads refl)

available-add :
    (n : Inode) (k m pos : ℕ)
    → available n (k + m) pos ≡ available n k pos + available n m (pos + available n k pos)
available-add n k m pos = ground arith

-- For an open file whose data lie on the device, with memory: two calls of file_read return what
-- one call for both sizes together returns, and leave the file at the same position.
pub read-read :
    (f : Fs) (x : File) (n : Inode) (k m : ℕ)
    → IsBlock f.disk
    → find f.open_inodes x.inode ≡ some n
    → IsFile f.disk n
    → (a : List ℕ) × (b : List ℕ) × (y : File) × (z : File) × (read true f x k ≡ done (a, y))
      × (read true f y m ≡ done (b, z))
      × (read true f x (k + m) ≡ done (a ++ b, z))
read-read f x n k m full found h =
    let (a, read_a, size_a, copy_a) = read_at_lem f.disk n k x.pos full h in
    let (b, read_b, size_b, copy_b) = read_at_lem f.disk n m (x.pos + length a) full h in
    let (c, read_c, size_c, copy_c) = read_at_lem f.disk n (k + m) x.pos full h in
    let y = advanced x (length a) in
    let total : length c ≡ length (a ++ b) =
      size_c
      ∙ available-add n k m x.pos
      ∙ ap (λ l. l + available n m (x.pos + l)) (sym size_a)
      ∙ ap (λ l. length a + l) (sym size_b)
      ∙ sym (length-append a b) in
    let sum : length (a ++ b) ≡ length a + length b = length-append a b in
    let same : c ≡ a ++ b = list_ext c (a ++ b) total (λ i lt.
      elim (Bool-cases (ltb i (length a))) [
        | inl early ↦
            copy_c i lt
            ∙ sym (copy_a i (ground (arith, early)))
            ∙ sym (get_elem?-append a b i ∙ rw early refl)
        | inr late ↦
            let place : address n (x.pos + length a) + (i - length a) ≡ address n x.pos + i =
              ground (arith, late) in
            copy_c i lt
            ∙ ap (byte_at f.disk) (sym place)
            ∙ sym (copy_b (i - length a) (ground (arith, late, total, sum)))
            ∙ sym (get_elem?-append a b i ∙ rw late refl)
      ]) in
    let far : x.pos + length (a ++ b) ≡ x.pos + length a + length b = omega (arith, sum) in
    (
      a,
      b,
      y,
      advanced y (length b),
      read_lem f x n k a found read_a,
      read_lem f y n m b found read_b,
      read_lem f x n (k + m) (a ++ b) found (read_c ∙ ap done same)
          ∙ ap (λ p. done (a ++ b, record x { pos = p })) far,
    )

-- For an open file whose data lie on a device that can be written, with memory, writes not denied
-- and the bytes fitting before its end: file_write writes all of the bytes, and after a seek back
-- file_read returns them and stops where the write stopped.
pub read-seek-write :
    (f : Fs) (x : File) (n : Inode) (bytes : List ℕ)
    → IsBlock f.disk
    → find f.open_inodes x.inode ≡ some n
    → IsFile f.disk n
    → n.deny_write_cnt ≡ 0
    → x.pos + length bytes ≤ n.content.length
    → (f' : Fs) × (y : File) × (write true f x bytes ≡ done (length bytes, y, f'))
      × (read true f' (seek y x.pos) (length bytes) ≡ done (bytes, y))
unfolding write seek
read-seek-write f x n bytes full found h writable fits =
    let (d, writes, reads, effect) = read_at-write_at f.disk n bytes x.pos full h writable fits in
    let f' : Fs = record f { disk = d } in
    let y = advanced x (length bytes) in
    (
      f',
      y,
      rw (inode_of, found) (rw writes refl),
      read_lem f' (seek y x.pos) n (length bytes) bytes found reads,
    )
