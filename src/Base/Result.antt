-- ===== src/Base/Result.antt =====
-- A result that may be an error, and steps on a state that end at the first error.
use mathlib.Core.Bool.{true≢false}
use moonparty.Base.{true, false, ◌⊎◌, inl, inr, ◌≡◌, refl}

pub data Result {ℓ κ} (E : Type ℓ) (A : Type κ) : Type (ℓ ⊔ κ) where
  ok : A → Result E A
  err : E → Result E A

pub Result-cases {ℓ κ} :
    {E : Type ℓ} {A : Type κ} (r : Result E A) → ((e : E) × (r ≡ err e)) ⊎ ((a : A) × (r ≡ ok a))
Result-cases (ok a) = inr (a, refl)
Result-cases (err e) = inl (e, refl)

module _ {ξ} {E : Type ξ} where
  module _ {ℓ κ} {A : Type ℓ} {B : Type κ} where
    infixl 5 ◌>>=◌
    abbrev pub ◌>>=◌ : Result E A → (A → Result E B) → Result E B
    ok a >>= f = f a
    err e >>= f = err e

  module _ {ℓ κ κ'} {S : Type ℓ} {A : Type κ} {B : Type κ'} where
    abbrev pub after : Result E A → S → (S → A → S × Result E B) → S × Result E B
    after (ok a) s f = f s a
    after (err e) s f = (s, err e)

    abbrev pub and_then : S × Result E A → (S → A → S × Result E B) → S × Result E B
    and_then m f = after m.1 m.0 f

    -- What holds of the state, and what each step keeps, holds in the end.
    pub and_then-keeps {ζ} :
        (P : S → Type ζ) (m : S × Result E A) (f : S → A → S × Result E B)
        → P m.0
        → ((s : S) (a : A) → P s → P (f s a).0)
        → P (and_then m f).0
    and_then-keeps P (s, ok a) f h k = k s a h
    and_then-keeps P (s, err e) f h k = h

    pub and_then-ok :
        (m : S × Result E A) (f : S → A → S × Result E B) (s : S) (a : A)
        → m ≡ (s, ok a)
        → and_then m f ≡ f s a
    and_then-ok m f s a e = rw e refl

-- What holds in the end, for a value and for an error, and the rule for the steps that follow.
module _ {ℓ κ ζ} {S : Type ℓ} {E : Type κ} (R : S → E → Type ζ) where
  abbrev pub Ends {κ'} : {A : Type κ'} → (S → A → Type ζ) → S × Result E A → Type ζ
  Ends Q (s, ok a) = Q s a
  Ends Q (s, err e) = R s e

  pub and_then-Ends {κ' μ} :
      {A : Type κ'} {B : Type μ} (P : S → A → Type ζ) (Q : S → B → Type ζ) (m : S × Result E A)
      (f : S → A → S × Result E B)
      → Ends P m
      → ((s : S) (a : A) → P s a → Ends Q (f s a))
      → Ends Q (and_then m f)
  and_then-Ends P Q (s, ok a) f h k = k s a h
  and_then-Ends P Q (s, err e) f h k = h

-- No error: the empty type, for `Ends`.
module _ {ℓ κ} {S : Type ℓ} {E : Type κ} where
  abbrev pub Never : S → E → Type 0
  Never s e = true ≡ false

  pub ok_of_Ends {κ'} :
      {A : Type κ'} (Q : S → A → Type 0) (m : S × Result E A)
      → Ends Never Q m
      → (s : S) × ((a : A) × ((m ≡ (s, ok a)) × Q s a))
  ok_of_Ends Q (s, ok a) h = (s, (a, (refl, h)))
  ok_of_Ends Q (s, err e) h = absurd (true≢false h)

  -- Steps that follow what cannot fail, to any end.
  pub and_then-Never {κ' μ ζ} :
      {A : Type κ'} {B : Type μ} (P : S → A → Type 0) (R : S → E → Type ζ) (Q : S → B → Type ζ)
      (m : S × Result E A) (f : S → A → S × Result E B)
      → Ends Never P m
      → ((s : S) (a : A) → P s a → Ends R Q (f s a))
      → Ends R Q (and_then m f)
  and_then-Never P R Q (s, ok a) f h k = k s a h
  and_then-Never P R Q (s, err e) f h k = absurd (true≢false h)

  pub Ends-both {κ'} :
      {A : Type κ'} (P : S → A → Type 0) (H : S → Type 0) (m : S × Result E A)
      → Ends Never P m
      → H m.0
      → Ends Never (λ s a. P s a × H s) m
  Ends-both P H (s, ok a) h k = (h, k)
  Ends-both P H (s, err e) h k = h
