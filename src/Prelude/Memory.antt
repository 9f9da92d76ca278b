-- ===== src/Prelude/Memory.antt =====
-- The outcome of C code that touches memory. `fault` is undefined behaviour: an access outside of
-- an object, or through NULL. `unfinished` is no outcome of the code: the fuel of a loop ran out. A
-- block of memory is the list of its bytes; NULL is `none`.
use Prim.Native.Nat.{ℕ, ◌+◌, ◌≤◌, ◌<◌}
use mathlib.Core.Path.{◌≡◌, refl, ap, ◌∙◌}
use mathlib.Core.Bool.{Bool, true, false}
use mathlib.Core.List.{List, [], ◌++◌, append-nil}
use mathlib.Core.Option.{Option, none, some}
use native.Mathlib.Omega.{arith}
use rn.Prelude.Tests.{leb, ltb, ◌==◌, if◌then◌else◌}
use rn.Prelude.Lists.{
  length, take, drop, get_elem?, set, length-append, length-take, take-length, drop-append,
  drop_all,
}

pub data Exec {ℓ} (A : Type ℓ) : Type ℓ where
  ok : A → Exec A
  fault unfinished : Exec A

-- An outcome of the code, whatever its fuel.
pub data Settles {ℓ} {A : Type ℓ} : Exec A → Type ℓ where
  settled : {a : A} → Settles (ok a)
  faulted : Settles fault

pub Settles-if {ℓ} :
    {A : Type ℓ} (b : Bool) {m n : Exec A} → Settles m → Settles n → Settles (if b then m else n)
Settles-if true p q = p
Settles-if false p q = q

infixl 5 ◌>>=◌
abbrev pub ◌>>=◌ {ℓ κ} : {A : Type ℓ} {B : Type κ} → Exec A → (A → Exec B) → Exec B
ok a >>= f = f a
fault >>= f = fault
unfinished >>= f = unfinished

-- `*p`
abbrev pub deref {ℓ} : {A : Type ℓ} → Option A → Exec A
deref none = fault
deref (some a) = ok a

module _ {ℓ} {A : Type ℓ} where
  -- `buf[i]`
  abbrev pub load : List A → ℕ → Exec A
  load buf i = deref (get_elem? buf i)

  -- `buf[i] = v`
  abbrev pub store : List A → ℕ → A → Exec (List A)
  store buf i v = if ltb i (length buf) then ok (set buf i v) else fault

  -- the `n` bytes at `buf + off`
  pub slice : List A → ℕ → ℕ → Exec (List A)
  slice buf off n = if leb (off + n) (length buf) then ok (take n (drop off buf)) else fault

  -- `src` written to `buf + off`
  pub splice : List A → ℕ → List A → Exec (List A)
  splice buf off src =
      if leb (off + length src) (length buf)
      then ok (take off buf ++ (src ++ drop (off + length src) buf))
      else fault

  -- What `memcpy` reads through a pointer that may be NULL; for no bytes it reads nothing.
  pub read_ptr : Option (List A) → ℕ → Exec (List A)
  unfolding slice
  read_ptr none n = if n == 0 then ok [] else fault
  read_ptr (some buf) n = slice buf 0 n

  pub slice_ok :
      (buf : List A) (off n : ℕ)
      → off + n ≤ length buf
      → slice buf off n ≡ ok (take n (drop off buf))
  unfolding slice
  slice_ok buf off n h = ground arith

  pub slice_fault : (buf : List A) (off n : ℕ) → length buf < off + n → slice buf off n ≡ fault
  unfolding slice
  slice_fault buf off n h = ground arith

  pub splice_fits :
      (off : ℕ) (buf src : List A)
      → off + length src ≤ length buf
      → splice buf off src ≡ ok (take off buf ++ (src ++ drop (off + length src) buf))
  unfolding splice
  splice_fits off buf src h = ground arith

  -- The `n` bytes behind a pointer, where it leads to as many.
  abbrev pub bytes : Option (List A) → ℕ → List A
  bytes none n = []
  bytes (some buf) n = take n buf

  abbrev pub Readable : Option (List A) → ℕ → Type 0
  Readable none n = n ≡ 0
  Readable (some buf) n = n ≤ length buf

  pub length-bytes : (p : Option (List A)) (n : ℕ) → Readable p n → length (bytes p n) ≡ n
  length-bytes none n h = omega (arith, h)
  length-bytes (some buf) n h = omega (arith, length-take n buf)

  pub read_ptr_lem : (p : Option (List A)) (n : ℕ) → Readable p n → read_ptr p n ≡ ok (bytes p n)
  unfolding read_ptr
  read_ptr_lem none n h = rw h refl
  read_ptr_lem (some buf) n h = slice_ok buf 0 n (omega arith)

  -- Writing behind a prefix keeps the prefix.
  pub splice-append :
      (front rest src : List A) (off : ℕ)
      → off ≡ length front
      → length src ≤ length rest
      → splice (front ++ rest) off src ≡ ok (front ++ (src ++ drop (length src) rest))
  splice-append front rest src off e h =
      rw
        (
          e,
          splice_fits (length front) (front ++ rest) src (omega (arith, length-append front rest)),
          drop-append,
          take-length,
        )
        refl

  -- A block that is overwritten whole.
  pub splice_all : (block src : List A) → length block ≡ length src → splice block 0 src ≡ ok src
  splice_all block src e =
      splice-append [] block src 0 refl (omega (arith, e))
      ∙ ap ok (ap (λ t. src ++ t) (drop_all (length src) block (omega (arith, e))) ∙ append-nil src)

-- `malloc`: a fresh block of the size asked for, with any bytes in it. (The program takes it to
-- succeed.)
pub record Allocator : Type 0 where
  pub malloc : ℕ → List ℕ
  pub length-malloc : (n : ℕ) → length (malloc n) ≡ n
