-- ===== src/Lock/Exclusion/Laws.antt =====
-- Mutual exclusion.
use Prim.Native.Nat.{◌^◌}
use mathlib.Core.Path.{subst}
use mathlib.Core.Option.{some-injective}
use dp_mongodb.Base.{ℕ, ◌<◌, ◌≡◌, ◌≢◌, ◌⊎◌, inl, inr, refl, sym, ◌∙◌, ap, false, Option, some}
use dp_mongodb.Lock.{World, Lock, lock, resource_name}
use dp_mongodb.Lock.Server.{IsLockServer, lock_granted, lock-lock_id_at, lock_keeps, unlock_keeps}
use dp_mongodb.Lock.Ids.{lock_id_at-injective}
use dp_mongodb.Lock.Exclusion.{
  Claim, Status, holding, leaving, claim_of, update, IsNewTime, System, init, name, lock_id,
  new_claim, Step, granted, refused, expire, unlock, left, environment, Reach, here, next,
}
use dp_mongodb.Lock.Exclusion.Claims.{Distinct, Distinct-update, Distinct-claim, update-cases}

claim_eq : {c d : Claim} → holding c ≡ holding d → c ≡ d
claim_eq e = cc

time_eq : {c d : Claim} → ◌≡◌ {A = Option Claim} (some c) (some d) → c.time ≡ d.time
time_eq e = ap (λ x. x.time) (some-injective _ _ e)

claimed : {x : Status} {c : Claim} → (x ≡ holding c) ⊎ (x ≡ leaving c) → claim_of x ≡ some c
claimed (inl h) = ap claim_of h
claimed (inr h) = ap claim_of h

module _ (W : World) (L : IsLockServer W) (l : Lock)
    (fits : (s : W.State) → (W.generate_time_id s).0 < 2 ^ 64) where
  open L use {held_by}

  -- A lock that has not expired is held at the server as long as its process holds it.
  Backed : W.State → (ℕ → Status) → Type 0
  Backed server status =
      (p : ℕ) (c : Claim)
      → status p ≡ holding c
      → c.expired ≡ false
      → held_by server (name W L l c) ≡ some (lock_id W L l c)

  record Inv (s : System W L l) : Type 0 where
    distinct : Distinct s.status
    backed : Backed s.server s.status

  -- What a status of another process says stays true.
  Backed-update :
      (server t : W.State) (status : ℕ → Status) (p : ℕ) (x : Status)
      → ((c : Claim)
          → x ≡ holding c
          → c.expired ≡ false
          → held_by t (name W L l c) ≡ some (lock_id W L l c))
      → ((q : ℕ) (c : Claim)
          → p ≢ q
          → status q ≡ holding c
          → c.expired ≡ false
          → held_by t (name W L l c) ≡ some (lock_id W L l c))
      → Backed t (update status p x)
  unfolding Backed
  Backed-update server t status p x own others q c e live = elim (update-cases status p x q) [
    | inl (same, h) ↦ own c (sym h ∙ e) live
    | inr (other, h) ↦ others q c other (sym h ∙ e) live
  ]

  Step-Inv : {s t : System W L l} → Step W L l IsNewTime s t → Inv s → Inv t
  unfolding Backed
  Step-Inv {s} (granted p id i g new) v = record {
    distinct =
        Distinct-claim s.status p _ v.distinct (new_claim W L l id s.server) refl new
          (fits s.server);
    backed =
        Backed-update s.server _ s.status p _
          (λ c e live.
            subst (λ d. held_by (lock W l id s.server).1 (name W L l d) ≡ some (lock_id W L l d))
              (claim_eq e)
              ((lock_granted W L l id s.server g).1 ∙ ap some (lock-lock_id_at W L l id s.server)))
          (λ q c other e live. lock_keeps W L l id _ _ s.server (v.backed q c e live));
  }
  Step-Inv {s} (refused p id e i g) v = record {
    distinct = v.distinct;
    backed = λ q c e live. lock_keeps W L l id _ _ s.server (v.backed q c e live);
  }
  Step-Inv {s} (expire p c h) v = record {
    distinct = Distinct-update s.status p _ v.distinct (λ d e. (c, ap claim_of h, time_eq e));
    backed =
        Backed-update s.server _ s.status p _
          (λ d e live. absurd (cc (ap (λ x. x.expired) (claim_eq e), live)))
          (λ q d other e live. v.backed q d e live);
  }
  Step-Inv {s} (unlock p c h) v = record {
    distinct = Distinct-update s.status p _ v.distinct (λ d e. (c, claimed h, time_eq e));
    backed =
        Backed-update s.server _ s.status p _ (λ d e live. absurd (cc e))
          (λ q d other e live. unlock_keeps W L _ _ _ s.server (v.backed q d e live) (λ same.
            other (
              v.distinct.unique p q c d (claimed h) (ap claim_of e) (
                sym
                  (lock_id_at-injective l d.id c.id d.time c.time
                    (v.distinct.bounded q d (ap claim_of e)) (v.distinct.bounded p c (claimed h))
                    same).1))));
  }
  Step-Inv {s} (left p c h) v = record {
    distinct = Distinct-update s.status p _ v.distinct (λ d e. absurd (cc e));
    backed =
        Backed-update s.server _ s.status p _ (λ d e live. absurd (cc e))
          (λ q d other e live. v.backed q d e live);
  }
  Step-Inv (environment t keeps) v = record {
    distinct = v.distinct;
    backed = λ q c e live. keeps q c e live (v.backed q c e live);
  }

  Reach-Inv : {s t : System W L l} → Inv s → Reach W L l IsNewTime s t → Inv t
  Reach-Inv v here = v
  Reach-Inv v (next r st) = Step-Inv st (Reach-Inv v r)

  init-Inv : (server : W.State) → Inv (init W L l server)
  unfolding Backed
  init-Inv server = record {
    distinct = record {
      unique = λ p q c d e e' h. absurd (cc e);
      bounded = λ p c e. absurd (cc e);
    };
    backed = λ p c e live. absurd (cc e);
  }

  -- At a server that keeps the documented laws of mongo-lock, with time ids that fit 64 bits, and
  -- as long as no new claim has the time id of a claim that a process still has: two processes
  -- never hold the same resource id at once, unless the lock of one of them has outlived its time
  -- to live.
  pub mutual_exclusion :
      (server : W.State) {s : System W L l}
      → Reach W L l IsNewTime (init W L l server) s
      → (p q : ℕ) (c d : Claim) → s.status p ≡ holding c
      → s.status q ≡ holding d
      → c.id ≡ d.id
      → c.expired ≡ false
      → d.expired ≡ false
      → p ≡ q
  unfolding Backed
  mutual_exclusion server {s = s} r p q c d hp hq same live live' =
      let v = Reach-Inv (init-Inv server) r in
      let own = v.backed p c hp live in
      let there =
        subst (λ i. held_by s.server (resource_name l i) ≡ some (lock_id W L l d)) (sym same)
          (v.backed q d hq live') in
      v.distinct.unique p q c d (ap claim_of hp) (ap claim_of hq)
        (lock_id_at-injective l c.id d.id c.time d.time (v.distinct.bounded p c (ap claim_of hp))
          (v.distinct.bounded q d (ap claim_of hq)) (some-injective _ _ (sym own ∙ there))).1
