-- ===== src/Pintos/Inodes/Holds.antt =====
-- A property of what a run returns; and the list open_inodes under the functions of inode.c and
-- free-map.c that do not open or close.
use sum.Prelude.{
  ℕ, ◌≡◌, refl, Bool, true, false, Option, none, some, List, ◌==◌, Run, done, fault, spin, ◌>>=◌,
  subst, Bool-cases, inl, inr,
}
use sum.Pintos.Block
use sum.Pintos.Block.{Block, read}
use sum.Pintos.Bitmap.{Bitmap, bitmap_error, assert, all_set, set_multiple, scan_and_flip}
use sum.Pintos.Content.{Inode, bytes_to_sectors}
use sum.Pintos.FreeMap.{Fs, allocate, commit, release, store, save_map}
use sum.Pintos.Inodes.{create, fill, zero_from, deallocate, is_countable}

-- A property of what a run returns, if it does.
abbrev pub Holds {ℓ} : {A : Type ℓ} → (A → Type 0) → Run A → Type 0
Holds P (done a) = P a
Holds P fault = Unit
Holds P spin = Unit

pub Holds-bind {ℓ ℓ'} :
    {A : Type ℓ} {B : Type ℓ'} (P : A → Type 0) (Q : B → Type 0) (m : Run A) (k : A → Run B)
    → Holds P m
    → ((a : A) → P a → Holds Q (k a))
    → Holds Q (m >>= k)
Holds-bind P Q (done a) k h f = f a h
Holds-bind P Q fault k h f = h
Holds-bind P Q spin k h f = h

pub Holds-all {ℓ} : {A : Type ℓ} (P : A → Type 0) (m : Run A) → ((a : A) → P a) → Holds P m
Holds-all P (done a) h = h a
Holds-all P fault h = tt
Holds-all P spin h = tt

pub Holds-assert {ℓ} :
    {A : Type ℓ} (P : A → Type 0) (b : Bool) (m : Run A)
    → (b ≡ true → Holds P m)
    → Holds P (assert b m)
Holds-assert P true m h = h refl
Holds-assert P false m h = tt

pub Holds-any {ℓ ℓ'} :
    {A : Type ℓ} {B : Type ℓ'} (Q : B → Type 0) (m : Run A) (k : A → Run B)
    → ((a : A) → Holds Q (k a))
    → Holds Q (m >>= k)
Holds-any Q m k f =
    Holds-bind (λ a. Holds Q (k a)) Q m k (Holds-all (λ a. Holds Q (k a)) m f) (λ a h. h)

-- The functions of the free map do not touch the list.
abbrev pub Same : List Inode → Fs → Type 0
Same ns f = f.open_inodes ≡ ns

pub store-Same :
    (mem : Bool) (f : Fs) (b : Bitmap) (o : Option ℕ) → Holds (Same f.open_inodes) (store mem f b o)
store-Same mem f b none = tt
store-Same mem f b (some s) = Holds-any _ (save_map mem f s b) _ (λ w. refl)

pub release-Same :
    (mem : Bool) (f : Fs) (s cnt : ℕ) → Holds (Same f.open_inodes) (release mem f s cnt)
unfolding release
release-Same mem f s cnt = Holds-any _ (all_set f.map s cnt) _ (λ full.
    Holds-assert _ full _
      (λ e. Holds-any _ (set_multiple f.map s cnt false) _ (λ b. store-Same mem f b f.map_file)))

pub deallocate-Same :
    (mem : Bool) (f : Fs) (n : Inode) → Holds (Same f.open_inodes) (deallocate mem f n)
unfolding deallocate
deallocate-Same mem f n =
    Holds-bind (Same f.open_inodes) _ (release mem f n.sector 1) _ (release-Same mem f n.sector 1)
      (λ f' e.
        subst
          (λ ns. Holds (Same ns) (
            assert (is_countable n.content.length)
              (release mem f' n.content.start (bytes_to_sectors n.content.length))))
          e
          (Holds-assert _ (is_countable n.content.length) _
            (λ small. release-Same mem f' n.content.start (bytes_to_sectors n.content.length))))

pub commit-Same :
    (mem : Bool) (f : Fs) (b : Bitmap) (s cnt : ℕ) (o : Option ℕ)
    → Holds (λ r. Same f.open_inodes r.1) (commit mem f b s cnt o)
commit-Same mem f b s cnt none = refl
commit-Same mem f b s cnt (some file) = Holds-any _ (save_map mem f file b) _ (λ w.
    elim (Bool-cases w.0) [
      | inl wrote ↦ rw wrote refl
      | inr failed ↦ rw failed (Holds-any _ (set_multiple b s cnt false) _ (λ b'. refl))
    ])

pub allocate-Same :
    (mem : Bool) (f : Fs) (cnt : ℕ) → Holds (λ r. Same f.open_inodes r.1) (allocate mem f cnt)
unfolding allocate
allocate-Same mem f cnt = Holds-any _ (scan_and_flip f.map 0 cnt false) _ (λ r.
    elim (Bool-cases (r.0 == bitmap_error)) [
      | inl failed ↦ rw failed refl
      | inr found ↦ rw found (commit-Same mem f r.1 r.0 cnt f.map_file)
    ])

pub fill-Same :
    (f : Fs) (s len : ℕ) (o : Option ℕ) → Holds (λ r. Same f.open_inodes r.1) (fill f s len o)
unfolding fill
fill-Same f s len none = refl
fill-Same f s len (some start) = Holds-any _ (Block.write f.disk s _) _ (λ d.
    Holds-any (λ r. Same f.open_inodes r.1) (zero_from (bytes_to_sectors len) d start)
      (λ d'. done (true, record f { disk = d' })) (λ d'. refl))

pub create-Same :
    (mem got : Bool) (f : Fs) (s len : ℕ)
    → Holds (λ r. Same f.open_inodes r.1) (create mem got f s len)
unfolding create
create-Same mem true f s len = Holds-assert _ (is_countable len) _ (λ small.
    Holds-bind (λ r. Same f.open_inodes r.1) _ (allocate mem f (bytes_to_sectors len)) _
      (allocate-Same mem f (bytes_to_sectors len))
      (λ r e.
        subst (λ ns. Holds (λ q. Same ns q.1) (fill r.1 s len r.0)) e (fill-Same r.1 s len r.0)))
create-Same mem false f s len = refl
