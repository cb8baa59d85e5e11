-- ===== src/Error.antt =====
-- src/error.rs: the crate's errors, and what a call can do besides returning its value.
use Prim.Native.String.{String}
use lzvn.Base.{
  ℕ, ◌-◌, ◌<◌, ◌≡◌, refl, Bool, none, some, arith, Bytes, length, length-append, take-append,
  drop-append, append_assoc, get_elem?, get_or, get_elem?-eq-get_or, set, take, drop, ◌&&◌, ◌++◌,
  ltb, leb, if◌then◌else◌, ◌+◌,
}

-- `enum Error`. A `u8`, `u32` or `usize` is a number.
pub data Error : Type 0 where
  truncated_input : ℕ → Error
  invalid_opcode : ℕ → ℕ → Error
  invalid_match_distance : ℕ → ℕ → Error
  output_too_small : ℕ → ℕ → Error
  size_mismatch : ℕ → ℕ → Error
  trailing_data : ℕ → Error
  unsupported_block_magic : ℕ → Error
  invalid_decmpfs_magic : ℕ → Error
  unsupported_decmpfs_compression_type : ℕ → Error
  missing_resource_fork : Error
  invalid_resource_fork : String → Error
  size_overflow : ℕ → ℕ → String → Error

-- `Result<T>`, with two more endings: `panic` is an index, a slice or a subtraction out of range,
-- and `out_of_fuel` is no ending of the source but of the loops of this model.
pub data Result {ℓ} (A : Type ℓ) : Type ℓ where
  ok : A → Result A
  err : Error → Result A
  panic : Result A
  out_of_fuel : Result A

infixl 5 ◌>>=◌ ◌>>◌
abbrev pub ◌>>=◌ {ℓ κ} : {A : Type ℓ} {B : Type κ} → Result A → (A → Result B) → Result B
ok a >>= f = f a
err e >>= f = err e
panic >>= f = panic
out_of_fuel >>= f = out_of_fuel

abbrev pub ◌>>◌ {ℓ} : {B : Type ℓ} → Result (Unit {0}) → Result B → Result B
m >> k = m >>= λ _. k

-- `if failed { return Err(e); }`
abbrev pub reject_if : Bool → Error → Result (Unit {0})
reject_if failed e = if failed then err e else ok tt

-- `xs[i]`
abbrev pub index : Bytes → ℕ → Result ℕ
index xs i = elim (get_elem? xs i) [ none ↦ panic | some b ↦ ok b ]

-- `&xs[start..end]`
abbrev pub slice : Bytes → ℕ → ℕ → Result Bytes
slice xs start end =
    if leb start end && leb end (length xs) then ok (take (end - start) (drop start xs)) else panic

-- `xs[i] = v`
abbrev pub store : Bytes → ℕ → ℕ → Result Bytes
store xs i v = if ltb i (length xs) then ok (set xs i v) else panic

-- `xs[start..start + bytes.len()].copy_from_slice(bytes)`
abbrev pub copy_from_slice : Bytes → ℕ → Bytes → Result Bytes
copy_from_slice xs start bytes =
    if leb (start + length bytes) (length xs)
    then ok (take start xs ++ (bytes ++ drop (start + length bytes) xs))
    else panic

-- `a - b` on `usize`
abbrev pub checked_sub : ℕ → ℕ → Result ℕ
checked_sub a b = if leb b a then ok (a - b) else panic

-- The call returned, with a value that satisfies `P` or with an error that satisfies `Q`.
abbrev pub Returns {ℓ} : {A : Type ℓ} → (A → Type 0) → (Error → Type 0) → Result A → Type 0
Returns P Q (ok a) = P a
Returns P Q (err e) = Q e
Returns P Q panic = ⊥
Returns P Q out_of_fuel = ⊥

-- Where it does not matter which error it is.
abbrev pub Any : Error → Type 0
Any e = Unit {0}

pub Returns-map {ℓ} :
    {A : Type ℓ} (P P' : A → Type 0) (Q Q' : Error → Type 0) (r : Result A)
    → ((a : A) → P a → P' a)
    → ((e : Error) → Q e → Q' e)
    → Returns P Q r
    → Returns P' Q' r
Returns-map P P' Q Q' (ok a) p q h = p a h
Returns-map P P' Q Q' (err e) p q h = q e h
Returns-map P P' Q Q' panic p q h = h
Returns-map P P' Q Q' out_of_fuel p q h = h

-- A call whose result goes on to a second call.
pub Returns-bind {ℓ κ} :
    {A : Type ℓ} {B : Type κ} (P : A → Type 0) (P' : B → Type 0) (Q : Error → Type 0) (r : Result A)
    (f : A → Result B)
    → Returns P Q r
    → ((a : A) → P a → Returns P' Q (f a))
    → Returns P' Q (r >>= f)
Returns-bind P P' Q (ok a) f h k = k a h
Returns-bind P P' Q (err e) f h k = h
Returns-bind P P' Q panic f h k = h
Returns-bind P P' Q out_of_fuel f h k = h

-- The first of two calls that succeed together.
pub bind_ok {ℓ κ} :
    {A : Type ℓ} {B : Type κ} (r : Result A) (f : A → Result B) {b : B}
    → r >>= f ≡ ok b
    → (a : A) × (r ≡ ok a) × (f a ≡ ok b)
bind_ok (ok a) f both = (a, refl, both)
bind_ok (err e) f both = cc
bind_ok panic f both = cc
bind_ok out_of_fuel f both = cc

pub index-eq-get_or : (xs : Bytes) (i : ℕ) → i < length xs → index xs i ≡ ok (get_or xs i 0)
index-eq-get_or xs i h = ground (arith, get_elem?-eq-get_or xs i 0 h)

-- Slices of, and copies into, a slice that is written as an append.
pub slice-append :
    (pre mid rest : Bytes) (i j : ℕ)
    → i ≡ length pre
    → j ≡ i + length mid
    → slice (pre ++ (mid ++ rest)) i j ≡ ok mid
slice-append pre mid rest i j hi hj =
    let size : j - i ≡ length mid = omega arith in
    let cut : take (j - i) (drop i (pre ++ (mid ++ rest))) ≡ mid =
      rw (drop-append pre (mid ++ rest) i hi) (take-append mid rest (j - i) size) in
    ground (arith, cut, length-append {0} pre (mid ++ rest), length-append {0} mid rest)

pub copy_from_slice-append :
    (out hole room bytes : Bytes) (i : ℕ)
    → i ≡ length out
    → length hole ≡ length bytes
    → copy_from_slice (out ++ (hole ++ room)) i bytes ≡ ok (out ++ (bytes ++ room))
copy_from_slice-append out hole room bytes i hi h =
    let end : i + length bytes ≡ length (out ++ hole) = omega (arith, length-append {0} out hole) in
    let front : take i (out ++ (hole ++ room)) ≡ out = take-append out (hole ++ room) i hi in
    let back : drop (i + length bytes) (out ++ (hole ++ room)) ≡ room =
      rw (← append_assoc out hole room) (drop-append (out ++ hole) room _ end) in
    ground (arith, front, back, length-append {0} out (hole ++ room), length-append {0} hole room)
