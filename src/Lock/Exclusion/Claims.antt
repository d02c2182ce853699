-- ===== src/Lock/Exclusion/Claims.antt =====
-- Claims of different processes have different time ids.
use Prim.Native.Nat.{◌^◌}
use mathlib.Core.Path.{subst}
use dp_mongodb.Base.{
  ℕ, ◌<◌, ◌≡◌, ◌≢◌, ◌⊎◌, inl, inr, refl, sym, ◌∙◌, ap, Bool-cases, some, arith, ◌==◌,
}
use dp_mongodb.Lock.Exclusion.{Claim, Status, claim_of, update, IsNewTime}

pub record Distinct (status : ℕ → Status) : Type 0 where
  pub unique :
      (p q : ℕ) (c d : Claim)
      → claim_of (status p) ≡ some c
      → claim_of (status q) ≡ some d
      → c.time ≡ d.time
      → p ≡ q
  pub bounded : (p : ℕ) (c : Claim) → claim_of (status p) ≡ some c → c.time < 2 ^ 64

pub update-cases :
    (f : ℕ → Status) (p : ℕ) (x : Status) (q : ℕ)
    → ((p ≡ q) × (update f p x q ≡ x)) ⊎ ((p ≢ q) × (update f p x q ≡ f q))
update-cases f p x q = elim (Bool-cases (p == q)) [
  | inl h ↦ inl (ground (arith, h), rw h refl)
  | inr h ↦ inr ((λ e. ground (arith, h)), rw h refl)
]

-- A claim of the updated family is the new one, or an old one of another process.
claim-cases :
    (f : ℕ → Status) (p : ℕ) (x : Status) (q : ℕ) (c : Claim)
    → claim_of (update f p x q) ≡ some c
    → ((p ≡ q) × (claim_of x ≡ some c)) ⊎ ((p ≢ q) × (claim_of (f q) ≡ some c))
claim-cases f p x q c e = elim (update-cases f p x q) [
  | inl (same, h) ↦ inl (same, ap claim_of (sym h) ∙ e)
  | inr (other, h) ↦ inr (other, ap claim_of (sym h) ∙ e)
]

-- The time of a claim stays with its process.
abbrev pub KeepsTime : Status → Status → Type 0
KeepsTime old new =
    (c : Claim) → claim_of new ≡ some c → (b : Claim) × (claim_of old ≡ some b) × (b.time ≡ c.time)

module _ (f : ℕ → Status) (p : ℕ) (x : Status) (v : Distinct f) where
  source :
      KeepsTime (f p) x
      → (q : ℕ) (c : Claim) → claim_of (update f p x q) ≡ some c
      → (b : Claim) × (claim_of (f q) ≡ some b) × (b.time ≡ c.time)
  source keeps q c e = elim (claim-cases f p x q c e) [
    | inl (same, h) ↦
        let (b, k, t) = keeps c h in (b, subst (λ n. claim_of (f n) ≡ some b) same k, t)
    | inr (other, h) ↦ (c, h, refl)
  ]

  pub Distinct-update : KeepsTime (f p) x → Distinct (update f p x)
  Distinct-update keeps = record {
    unique = λ q r c d e e' h.
        let (b, k, t) = source keeps q c e in
        let (b', k', t') = source keeps r d e' in v.unique q r b b' k k' (t ∙ h ∙ sym t');
    bounded =
        λ q c e. let (b, k, t) = source keeps q c e in subst (λ n. n < 2 ^ 64) t (v.bounded q b k);
  }

  -- A new claim, with a new time.
  pub Distinct-claim :
      (new : Claim)
      → claim_of x ≡ some new
      → IsNewTime f new.time
      → new.time < 2 ^ 64
      → Distinct (update f p x)
  Distinct-claim new h fresh fits = record {
    unique = λ q r c d e e' t. elim (claim-cases f p x q c e) [
      | inl (same, k) ↦ elim (claim-cases f p x r d e') [
        | inl (same', k') ↦ sym same ∙ same'
        | inr (other', k') ↦ absurd (fresh r d k' (sym t ∙ time_of c k))
      ]
      | inr (other, k) ↦ elim (claim-cases f p x r d e') [
        | inl (same', k') ↦ absurd (fresh q c k (t ∙ time_of d k'))
        | inr (other', k') ↦ v.unique q r c d k k' t
      ]
    ];
    bounded = λ q c e. elim (claim-cases f p x q c e) [
      | inl (same, k) ↦ subst (λ n. n < 2 ^ 64) (sym (time_of c k)) fits
      | inr (other, k) ↦ v.bounded q c k
    ];
  }
    where
      time_of : (c : Claim) → claim_of x ≡ some c → c.time ≡ new.time
      time_of c k = cc (h, k)
