-- ===== src/Exec.antt =====
-- Code that changes a state and that may still be in a loop: `none` says that the fuel of a loop
-- ran out before the code returned.
use concurrent_tcp_file_tran.Base.{Option, none, some, ◌≡◌, ◌≢◌, refl, subst}

abbrev pub Exec : Type 0 → Type 0 → Type 0
Exec S A = S → Option (A × S)

infixl 5 ◌>>=◌ ◌>>◌
abbrev pub ◌>>=◌ : {S A B : Type 0} → Exec S A → (A → Exec S B) → Exec S B
◌>>=◌ m f s = elim (m s) [ none ↦ none | some (a, s') ↦ f a s' ]

abbrev pub ◌>>◌ : {S B : Type 0} → Exec S (Unit {0}) → Exec S B → Exec S B
◌>>◌ m k s = elim (m s) [ none ↦ none | some (u, s') ↦ k s' ]

abbrev pub pure : {S A : Type 0} → A → Exec S A
pure a s = some (a, s)

abbrev pub gets : {S A : Type 0} → (S → A) → Exec S A
gets f s = some (f s, s)

abbrev pub modify : {S : Type 0} → (S → S) → Exec S (Unit {0})
modify f s = some (tt, f s)

abbrev pub out_of_fuel : {S A : Type 0} → Exec S A
out_of_fuel s = none

-- What a computation that returned did: the state and the value between its two parts.
pub >>=-eq-some :
    {S A B : Type 0} (m : Exec S A) (f : A → Exec S B) (s : S) {r : B × S}
    → (m >>= f) s ≡ some r
    → (a : A) × (t : S) × (m s ≡ some (a, t)) × (f a t ≡ some r)
>>=-eq-some {S} {A} m f s {r} e = go (m s) refl e
  where
    go :
        (o : Option (A × S))
        → m s ≡ o
        → ◌≡◌ {A = Option _} (elim o [ none ↦ none | some (a, t) ↦ f a t ]) (some r)
        → (a : A) × (t : S) × (m s ≡ some (a, t)) × (f a t ≡ some r)
    go none e h = cc
    go (some (a, t)) e h = (a, t, e, h)

-- A computation over a part of the state that returned, seen from the whole.
pub lift-eq-some :
    {S T A B : Type 0} (o : Option (A × S)) (f : A → S → B × T) {r : B × T}
    → ◌≡◌ {A = Option (B × T)} (elim o [ none ↦ none | some (a, s) ↦ some (f a s) ]) (some r)
    → (a : A) × (s : S) × (o ≡ some (a, s)) × (f a s ≡ r)
lift-eq-some none f e = cc
lift-eq-some (some (a, s)) f e = (a, s, refl, cc)

pub lift-ne-none :
    {S T A B : Type 0} (o : Option (A × S)) (f : A → S → B × T)
    → o ≢ none
    → ◌≢◌ {A = Option (B × T)} (elim o [ none ↦ none | some (a, s) ↦ some (f a s) ]) none
lift-ne-none none f h e = absurd (h refl)
lift-ne-none (some (a, s)) f h e = cc

-- What a computation that returned gave: one value and one state.
pub returned_both :
    {S A : Type 0} (P : A → S → Type 0) (a b : A) (s t : S)
    → ◌≡◌ {A = Option (A × S)} (some (a, s)) (some (b, t))
    → P a s
    → P b t
returned_both {S} {A} P a b s t e p = subst (λ r. P r.0 r.1) (pair_eq e) p
  where
    pair_eq : ◌≡◌ {A = Option (A × S)} (some (a, s)) (some (b, t)) → ◌≡◌ {A = A × S} (a, s) (b, t)
    pair_eq e' = cc

pub returned_value :
    {S A : Type 0} (P : A → Type 0) (a b : A) (s t : S)
    → ◌≡◌ {A = Option (A × S)} (some (a, s)) (some (b, t))
    → P a
    → P b
returned_value P a b s t e p = returned_both (λ x v. P x) a b s t e p

pub returned_state :
    {S A : Type 0} (P : S → Type 0) (a b : A) (s t : S)
    → ◌≡◌ {A = Option (A × S)} (some (a, s)) (some (b, t))
    → P s
    → P t
returned_state P a b s t e p = returned_both (λ x v. P v) a b s t e p

pub some-ne-none : {A : Type 0} (a : A) → some a ≢ none
some-ne-none a e = cc
