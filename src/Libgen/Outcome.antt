-- ===== src/Libgen/Outcome.antt =====
-- What a call can come to: a value, the deliberate stop of `Panic` (server/src/libgen/libgenDebug.h),
-- an exception, an access outside the bytes that there are, which C++ leaves undefined, or, for a
-- loop that is modelled on fuel, no end within the fuel.
use ozonebase.Prelude.{◌≡◌, refl}

pub data Outcome {ℓ} (A : Type ℓ) : Type ℓ where
  ok : A → Outcome A
  panic : Outcome A
  fault : Outcome A
  thrown : Outcome A
  spent : Outcome A

infixl 5 ◌>>=◌
abbrev pub ◌>>=◌ {ℓ κ} : {A : Type ℓ} {B : Type κ} → Outcome A → (A → Outcome B) → Outcome B
ok a >>= f = f a
panic >>= f = panic
fault >>= f = fault
thrown >>= f = thrown
spent >>= f = spent

-- A chain that came to a value: so did its first call, and the rest from there.
pub >>=-eq-ok {ℓ κ} :
    {A : Type ℓ} {B : Type κ} (call : Outcome A) (next : A → Outcome B) {final : B}
    → (call >>= next) ≡ ok final
    → (value : A) × (call ≡ ok value) × (next value ≡ ok final)
>>=-eq-ok panic next e = cc
>>=-eq-ok fault next e = cc
>>=-eq-ok thrown next e = cc
>>=-eq-ok spent next e = cc
>>=-eq-ok (ok value) next e = (value, refl, e)

pub ok-injective {ℓ} : {A : Type ℓ} {a b : A} → ok a ≡ ok b → a ≡ b
ok-injective e = cc

-- A value that is only passed on.
pub >>=-ok {ℓ κ μ} :
    {A : Type ℓ} {B : Type κ} {C : Type μ} (call : Outcome A) (pass : A → B) (next : B → Outcome C)
    → ((call >>= λ a. ok (pass a)) >>= next) ≡ (call >>= λ a. next (pass a))
>>=-ok (ok value) pass next = refl
>>=-ok panic pass next = refl
>>=-ok fault pass next = refl
>>=-ok thrown pass next = refl
>>=-ok spent pass next = refl

-- Chains are associative, and the same where their parts are.
pub >>=_assoc {ℓ κ μ} :
    {A : Type ℓ} {B : Type κ} {C : Type μ} (call : Outcome A) (f : A → Outcome B)
    (g : B → Outcome C)
    → ((call >>= f) >>= g) ≡ (call >>= λ a. f a >>= g)
>>=_assoc (ok value) f g = refl
>>=_assoc panic f g = refl
>>=_assoc fault f g = refl
>>=_assoc thrown f g = refl
>>=_assoc spent f g = refl

pub >>=_cong {ℓ κ} :
    {A : Type ℓ} {B : Type κ} (call : Outcome A) (f g : A → Outcome B)
    → ((a : A) → f a ≡ g a)
    → (call >>= f) ≡ (call >>= g)
>>=_cong (ok value) f g h = h value
>>=_cong panic f g h = refl
>>=_cong fault f g h = refl
>>=_cong thrown f g h = refl
>>=_cong spent f g h = refl
