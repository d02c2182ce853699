-- ===== src/Driver/Address.antt =====
-- The endpoints that the expression of mongodb/driver.go accepts.
use dp_mongodb.Base.{ℕ, ◌≡◌, ◌≢◌, inl, inr, refl, Bool, true, List, [], ◌∷◌, ◌++◌, arith, ◌==◌}
use dp_mongodb.Base.Text.{all_pass, all_pass-append, is_digit, codes}
use dp_mongodb.Driver.{literal, scheme, is_host_char, endpoint_regex}
use dp_mongodb.Driver.Regexp.{
  Regex, class, seq, opt, star, plus, matches, Matches, empty_, class_, seq_, left, right, done,
  more, class-inv, seq-inv, opt-inv, matches_sound, matches_complete,
}

-- A host name, and a colon and digits behind it or nothing.
pub data IsPort (t : List ℕ) : Type 0 where
  no_port : t ≡ [] → IsPort t
  port : (ds : List ℕ) → t ≡ b':' ∷ ds → ds ≢ [] → all_pass is_digit ds ≡ true → IsPort t

pub record IsAddress (t : List ℕ) : Type 0 where
  pub host : List ℕ
  pub rest : List ℕ
  pub parts : t ≡ host ++ rest
  pub some_host : host ≢ []
  pub host_chars : all_pass is_host_char host ≡ true
  pub a_port : IsPort rest

star_sound : {p : ℕ → Bool} {t : List ℕ} → Matches (star (class p)) t → all_pass p t ≡ true
star_sound (done e) = rw e refl
star_sound {p = p} (more u v a b e) =
    let (c, h, e') = class-inv a in
    let one : all_pass p (c ∷ []) ≡ true = ground (arith, h) in
    rw (e, e') (all_pass-append p (c ∷ []) v one (star_sound b))

star_complete : (p : ℕ → Bool) (t : List ℕ) → all_pass p t ≡ true → Matches (star (class p)) t
star_complete p [] h = done refl
star_complete p (c ∷ t) h =
    more (c ∷ []) t (class_ c (ground arith) refl) (star_complete p t (ground arith)) refl

cons-nonempty : (c : ℕ) (u v t : List ℕ) → u ≡ c ∷ [] → t ≡ u ++ v → t ≢ []
cons-nonempty c u v t e e' q = cc

plus_sound :
    {p : ℕ → Bool} {t : List ℕ} → Matches (plus (class p)) t → (t ≢ []) × (all_pass p t ≡ true)
plus_sound {p = p} {t = t} m =
    let (u, v, a, b, e) = seq-inv m in
    let (c, h, e') = class-inv a in
    let one : all_pass p (c ∷ []) ≡ true = ground (arith, h) in
    (cons-nonempty c u v t e' e, rw (e, e') (all_pass-append p (c ∷ []) v one (star_sound b)))

plus_complete :
    (p : ℕ → Bool) (t : List ℕ) → t ≢ [] → all_pass p t ≡ true → Matches (plus (class p)) t
plus_complete p [] n h = absurd (n refl)
plus_complete p (c ∷ t) n h =
    seq_ (c ∷ []) t (class_ c (ground arith) refl) (star_complete p t (ground arith)) refl

pub class_same : (c d : ℕ) → c == d ≡ true → c ≡ d
class_same c d h = ground (arith, h)

literal_sound : (w : List ℕ) {t : List ℕ} → Matches (literal w) t → t ≡ w
literal_sound [] (empty_ e) = e
literal_sound (c ∷ w) m =
    let (u, v, a, b, e) = seq-inv m in
    let (d, h, e') = class-inv a in
    let tail : v ≡ w = literal_sound w b in rw (e, e', tail, class_same c d h) refl

literal_complete : (w : List ℕ) → Matches (literal w) w
literal_complete [] = empty_ refl
literal_complete (c ∷ w) = seq_ (c ∷ []) w (class_ c (ground arith) refl) (literal_complete w) refl

port_regex : Regex
port_regex = opt (seq (class (λ c. b':' == c)) (plus (class is_digit)))

IsPort-sound : {t : List ℕ} → Matches port_regex t → IsPort t
unfolding port_regex
IsPort-sound m = elim (opt-inv m) [
  | inr e ↦ no_port e
  | inl n ↦
      let (u, v, a, b, e) = seq-inv n in
      let (d, h, e') = class-inv a in
      let (some_digit, digits) = plus_sound b in
      port v (rw (e, e', class_same b':' d h) refl) some_digit digits
]

IsPort-complete : {t : List ℕ} → IsPort t → Matches port_regex t
unfolding port_regex
IsPort-complete (no_port e) = right (empty_ e)
IsPort-complete (port ds e n h) =
    left (seq_ (b':' ∷ []) ds (class_ b':' refl refl) (plus_complete is_digit ds n h) e)

-- The endpoint has the address, behind the scheme or alone.
pub data HasAddress (t address : List ℕ) : Type 0 where
  alone : t ≡ address → HasAddress t address
  behind_scheme : t ≡ codes scheme ++ address → HasAddress t address

pub endpoint_sound :
    (t : List ℕ)
    → matches endpoint_regex t ≡ true
    → (address : List ℕ) × IsAddress address × HasAddress t address
unfolding port_regex
endpoint_sound t h =
    let (u, v, a, b, e) = seq-inv (matches_sound endpoint_regex t h) in
    let (x, y, c, d, e') = seq-inv b in
    let (some_char, chars) = plus_sound c in
    let address : IsAddress v = record {
      host = x;
      rest = y;
      parts = e';
      some_host = some_char;
      host_chars = chars;
      a_port = IsPort-sound d;
    } in
    (
      v,
      address,
      elim (opt-inv a) [
        | inl l ↦ behind_scheme (rw (e, literal_sound (codes scheme) l) refl)
        | inr n ↦ alone (rw (e, n) refl)
      ],
    )

pub endpoint_complete :
    (t address : List ℕ)
    → IsAddress address
    → HasAddress t address
    → matches endpoint_regex t ≡ true
unfolding port_regex
endpoint_complete t address i has =
    let tail =
      seq_ i.host i.rest (plus_complete is_host_char i.host i.some_host i.host_chars)
        (IsPort-complete i.a_port) i.parts in
    matches_complete endpoint_regex t (elim has [
      | alone e ↦ seq_ [] address (right (empty_ refl)) tail e
      | behind_scheme e ↦
          seq_ (codes scheme) address (left (literal_complete (codes scheme))) tail e
    ])
