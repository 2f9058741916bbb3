-- ===== src/Common/Results.antt =====
-- What a fallible operation of the packet code answers: Rust's Result with PacketError
-- (packet/mod.rs), and a panic (an index or slice out of range, a failed `expect`).
use Prim.Native.Nat.{ℕ}
use mathlib.Core.Path.{◌≡◌, refl}
use mathlib.Core.Option.{Option, none, some}

-- `out_of_fuel` is no Rust value: the rounds given to a loop of the model were not enough.
pub data Fault : Type 0 where
  panic out_of_fuel : Fault

pub data PacketError : Type 0 where
  too_short : ℕ → ℕ → PacketError
  bad_version : ℕ → PacketError
  bad_packet_type : ℕ → PacketError
  bad_lsa_type : ℕ → PacketError
  bad_checksum : PacketError

pub data Outcome {ℓ} (A : Type ℓ) : Type ℓ where
  ok : A → Outcome A
  err : PacketError → Outcome A
  fault : Fault → Outcome A

infixl 5 ◌>>=◌
abbrev pub ◌>>=◌ {ℓ κ} : {A : Type ℓ} {B : Type κ} → Outcome A → (A → Outcome B) → Outcome B
ok a >>= f = f a
err e >>= f = err e
fault w >>= f = fault w

-- `Option::unwrap`
abbrev pub unwrap {ℓ} : {A : Type ℓ} → Option A → Outcome A
unwrap none = fault panic
unwrap (some a) = ok a

-- The operation returns: it answers `ok` or an error value.
abbrev pub Returns {ℓ} : {A : Type ℓ} → Outcome A → Type 0
Returns (ok a) = Unit {0}
Returns (err e) = Unit {0}
Returns (fault w) = ⊥

pub Returns->>= {ℓ κ} :
    {A : Type ℓ} {B : Type κ} (m : Outcome A) (f : A → Outcome B)
    → Returns m
    → ((a : A) → m ≡ ok a → Returns (f a))
    → Returns (m >>= f)
Returns->>= (ok a) f h k = k a refl
Returns->>= (err e) f h k = tt
Returns->>= (fault w) f h k = h

-- A result, if there is one, has the property.
abbrev pub Ensures {ℓ} : {A : Type ℓ} → (A → Type 0) → Outcome A → Type 0
Ensures P (ok a) = P a
Ensures P (err e) = Unit {0}
Ensures P (fault w) = Unit {0}

pub Ensures->>= {ℓ κ} :
    {A : Type ℓ} {B : Type κ} (Q : A → Type 0) (P : B → Type 0) (m : Outcome A) (f : A → Outcome B)
    → Ensures Q m
    → ((a : A) → Q a → Ensures P (f a))
    → Ensures P (m >>= f)
Ensures->>= Q P (ok a) f h k = k a h
Ensures->>= Q P (err e) f h k = tt
Ensures->>= Q P (fault w) f h k = tt

-- Whatever the first step answers.
pub Ensures->>=_any {ℓ κ} :
    {A : Type ℓ} {B : Type κ} (P : B → Type 0) (m : Outcome A) (f : A → Outcome B)
    → ((a : A) → Ensures P (f a))
    → Ensures P (m >>= f)
Ensures->>=_any P (ok a) f k = k a
Ensures->>=_any P (err e) f k = tt
Ensures->>=_any P (fault w) f k = tt
