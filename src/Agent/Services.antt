-- ===== src/Agent/Services.antt =====
-- The service entries of a mandate as a list: lookup, update, names, limits.
use vela_protocol.Base.{
  ℕ, suc, zero, ◌≤◌, some, inl, inr, ◌≡◌, ◌≢◌, refl, arith, List, [], ◌∷◌, map, length, get_elem?,
  set, All, ap, Bool-cases, Option-cases, ◌==◌, ==_iff,
}
use vela_protocol.Base.Int.{ℤ}
use vela_protocol.Errors.{ok, Result-cases}
use vela_protocol.State.{ServiceLimit}
use vela_protocol.Agent.Limits.{find_service_index}
use vela_protocol.Agent.Handlers.{
  ServiceLimitInput, require_absent, check_duplicates, update_services, new_service,
}

module _ {ℓ} {A : Type ℓ} where
  pub All-get_elem? {κ} :
      (P : A → Type κ) (xs : List A) (i : ℕ) {x : A} → All P xs → get_elem? xs i ≡ some x → P x
  All-get_elem? P [] i a h = cc
  All-get_elem? P (y ∷ xs) zero a h = ground arith
  All-get_elem? P (y ∷ xs) (suc i) a h = All-get_elem? P xs i a.1 h

  pub All-set {κ} :
      (P : A → Type κ) (xs : List A) (i : ℕ) (v : A) → All P xs → P v → All P (set xs i v)
  All-set P [] i v a h = tt
  All-set P (y ∷ xs) zero v a h = (h, a.1)
  All-set P (y ∷ xs) (suc i) v a h = (a.0, All-set P xs i v a.1 h)

  pub length-set : (xs : List A) (i : ℕ) (v : A) → length (set xs i v) ≡ length xs
  length-set [] i v = refl
  length-set (y ∷ xs) zero v = refl
  length-set (y ∷ xs) (suc i) v = ap suc (length-set xs i v)

  -- An update that keeps what `f` shows of an entry keeps it of the list.
  pub map-set {κ} :
      {B : Type κ} (f : A → B) (xs : List A) (i : ℕ) (x v : A)
      → get_elem? xs i ≡ some x
      → f v ≡ f x
      → map f (set xs i v) ≡ map f xs
  map-set f [] i x v h same = cc
  map-set f (y ∷ xs) zero x v h same = ground arith
  map-set f (y ∷ xs) (suc i) x v h same = ap (λ r. f y ∷ r) (map-set f xs i x v h same)

  pub get_elem?-set :
      (xs : List A) (i : ℕ) (x v : A) → get_elem? xs i ≡ some x → get_elem? (set xs i v) i ≡ some v
  get_elem?-set [] i x v h = cc
  get_elem?-set (y ∷ xs) zero x v h = refl
  get_elem?-set (y ∷ xs) (suc i) x v h = get_elem?-set xs i x v h

-- The entry that is found is one of the service.
pub find_service_index-finds :
    (xs : List ServiceLimit) (service i : ℕ)
    → find_service_index xs service ≡ some i
    → (l : ServiceLimit) × (get_elem? xs i ≡ some l) × (l.service ≡ service)
unfolding find_service_index
find_service_index-finds [] service i h = cc
find_service_index-finds (l ∷ xs) service i h = elim (Bool-cases (l.service == service)) [
  | inl same ↦ (l, ground arith, ground (arith, ==_iff l.service service))
  | inr other ↦ elim (Option-cases (find_service_index xs service)) [
    | inl e ↦ absurd (ground arith)
    | inr (j, e) ↦ (let ih = find_service_index-finds xs service j e in (ih.0, ground arith, ih.2))
  ]
]

-- The services named, without repetition.
abbrev pub service_names : List ServiceLimit → List ℕ
service_names limits = map (λ l. l.service) limits

abbrev pub input_names : List ServiceLimitInput → List ℕ
input_names inputs = map (λ l. l.service) inputs

abbrev pub Distinct : List ℕ → Type 0
Distinct [] = Unit
Distinct (x ∷ xs) = All (λ y. x ≢ y) xs × Distinct xs

abbrev pub WithinLimit : ServiceLimit → Type 0
WithinLimit l = l.daily_spent ≤ l.daily_limit

require_absent-All :
    (service : ℕ) (inputs : List ServiceLimitInput)
    → require_absent service inputs ≡ ok tt
    → All (λ y. service ≢ y) (input_names inputs)
unfolding require_absent
require_absent-All service [] h = tt
require_absent-All service (input ∷ rest) h =
    ((λ e. ground arith), require_absent-All service rest (ground arith))

pub check_duplicates-Distinct :
    (inputs : List ServiceLimitInput)
    → check_duplicates inputs ≡ ok tt
    → Distinct (input_names inputs)
unfolding check_duplicates
check_duplicates-Distinct [] h = tt
check_duplicates-Distinct (input ∷ rest) h = (
  require_absent-All input.service rest (ground arith),
  check_duplicates-Distinct rest (ground arith),
)

-- The entries of a creation.
pub new_service-names :
    (now : ℤ) (inputs : List ServiceLimitInput)
    → (service_names (map (new_service now) inputs) ≡ input_names inputs)
      × (length (map (new_service now) inputs) ≡ length inputs)
      × All WithinLimit (map (new_service now) inputs)
new_service-names now [] = (refl, refl, tt)
new_service-names now (input ∷ rest) =
    let ih = new_service-names now rest in
    (ap (λ r. input.service ∷ r) ih.0, ap suc ih.1, (ground arith, ih.2))

-- The entries of an adjustment, each within its limit.
pub update_services-names :
    (current : List ServiceLimit) (inputs : List ServiceLimitInput) (now : ℤ)
    (updated : List ServiceLimit)
    → update_services current inputs now ≡ ok updated
    → (service_names updated ≡ input_names inputs)
      × (length updated ≡ length inputs)
      × All WithinLimit updated
unfolding update_services
update_services-names current [] now updated h = (ground arith, ground arith, ground arith)
update_services-names current (input ∷ rest) now updated h =
    elim (Result-cases (update_services current rest now)) [
      | inr bad ↦ absurd (ground arith)
      | inl (tail, e) ↦
          (let ih = update_services-names current rest now tail e in
            (ground arith, ground arith, ground arith))
    ]
