-- ===== src/Lock/Ids.antt =====
-- The ids that `Lock.Lock` gives its locks.
use Prim.Native.Char.{code}
use Prim.Native.Nat.{◌^◌}
use text.Mathlib.TextEquality.{Char-path}
use dp_mongodb.Base.{
  ℕ, ◌≡◌, ◌≢◌, ◌<◌, refl, sym, ap, ◌∙◌, String, ◌<>◌, Bool, true, not, List, [], ◌∷◌, ◌++◌, ◌==◌,
  arith,
}
use dp_mongodb.Base.Text.{codes, codes-<>, is_digit, all_pass, all_pass-weaken}
use dp_mongodb.Lock.Decimal.{decimal}
use dp_mongodb.Lock.Decimal.Reading.{read, read-decimal, all_pass-decimal}
use dp_mongodb.Lock.{World, Lock, lock, resource_name, lock_id_at}

abbrev no_dash : ℕ → Bool
no_dash c = not (c == b'-')

dash_inside : (v e : List ℕ) → all_pass no_dash (v ++ b'-' ∷ e) ≢ true
dash_inside [] e h = cc
dash_inside (x ∷ v) e h = dash_inside v e (ground arith)

tail_eq : {x y : ℕ} {u v : List ℕ} → x ∷ u ≡ y ∷ v → u ≡ v
tail_eq e = cc

-- The last dash splits a text in one way.
last_dash :
    (u v d e : List ℕ)
    → all_pass no_dash d ≡ true
    → all_pass no_dash e ≡ true
    → u ++ b'-' ∷ d ≡ v ++ b'-' ∷ e
    → (u ≡ v) × (d ≡ e)
last_dash [] [] d e hd he q = (refl, cc)
last_dash [] (x ∷ v) d e hd he q = absurd (dash_inside v e (rw (tail_eq q) at hd))
last_dash (x ∷ u) [] d e hd he q = absurd (dash_inside u d (rw (sym (tail_eq q)) at he))
last_dash (x ∷ u) (y ∷ v) d e hd he q = let (a, b) = last_dash u v d e hd he (cc) in (cc, b)

codes-lock_id :
    (l : Lock) (id : String) (time : ℕ)
    → codes (lock_id_at l id time) ≡ codes (resource_name l id) ++ b'-' ∷ codes (decimal time)
codes-lock_id l id time =
    codes-<> (resource_name l id) ("-" <> decimal time)
    ∙ ap (λ c. codes (resource_name l id) ++ c) (codes-<> "-" (decimal time))

decimal-no_dash : (n : ℕ) → all_pass no_dash (codes (decimal n)) ≡ true
decimal-no_dash n =
    all_pass-weaken is_digit no_dash (λ c h. ground arith) (codes (decimal n)) (all_pass-decimal n)

append-cancel : (u v w : List ℕ) → u ++ v ≡ u ++ w → v ≡ w
append-cancel [] v w e = e
append-cancel (x ∷ u) v w e = append-cancel u v w (tail_eq e)

codes-injective : (s t : String) → codes s ≡ codes t → s ≡ t
codes-injective String.[] String.[] e = refl
codes-injective String.[] (String.◌∷◌ c t) e = absurd (cc)
codes-injective (String.◌∷◌ c s) String.[] e = absurd (cc)
codes-injective (String.◌∷◌ c s) (String.◌∷◌ d t) e =
    let first : code c ≡ code d = cc in
    rw (Char-path c d first, codes-injective s t (tail_eq e)) refl

codes-resource_name :
    (l : Lock) (id : String) → codes (resource_name l id) ≡ codes l.resource ++ b'-' ∷ codes id
codes-resource_name l id =
    codes-<> l.resource ("-" <> id) ∙ ap (λ c. codes l.resource ++ c) (codes-<> "-" id)

pub resource_name-injective :
    (l : Lock) (i j : String)
    → codes (resource_name l i) ≡ codes (resource_name l j)
    → codes i ≡ codes j
resource_name-injective l i j e = tail_eq (
    append-cancel (codes l.resource) (b'-' ∷ codes i) (b'-' ∷ codes j)
      (sym (codes-resource_name l i) ∙ e ∙ codes-resource_name l j))

-- A lock's id tells what it was made of.
pub lock_id_at-injective :
    (l : Lock) (i j : String) (m n : ℕ)
    → m < 2 ^ 64
    → n < 2 ^ 64
    → lock_id_at l i m ≡ lock_id_at l j n
    → (i ≡ j) × (m ≡ n)
lock_id_at-injective l i j m n hm hn e =
    let split =
      last_dash _ _ _ _ (decimal-no_dash m) (decimal-no_dash n)
        (sym (codes-lock_id l i m) ∙ ap codes e ∙ codes-lock_id l j n) in
    (
      codes-injective i j (resource_name-injective l i j split.0),
      sym (read-decimal m hm) ∙ ap (read 0) split.1 ∙ read-decimal n hn,
    )

-- The id of a lock tells what it was made of: two calls of `Lock` for one resource, whether they
-- fail or not, that give the same lock id were about the same resource id and had the same time id,
-- if both time ids fit 64 bits.
pub lock-injective :
    (W : World) (l : Lock) (i j : String) (s t : W.State)
    → (W.generate_time_id s).0 < 2 ^ 64
    → (W.generate_time_id t).0 < 2 ^ 64
    → (lock W l i s).0.0 ≡ (lock W l j t).0.0
    → (i ≡ j) × ((W.generate_time_id s).0 ≡ (W.generate_time_id t).0)
unfolding lock
lock-injective W l i j s t hs ht e = lock_id_at-injective l i j _ _ hs ht e
