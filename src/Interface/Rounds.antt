-- ===== src/Interface/Rounds.antt =====
-- What a handler that visits the larger of two sets, and returns nil, has asked of dp-service, and
-- what two such runs ask.
use metalnet.Base.{
  ◌≡◌, refl, sym, subst, ◌∙◌, arith, Bool, ◌&&◌, ◌||◌, String, List, ◌∷◌, length, ltb,
  if◌then◌else◌, Equality,
}
use metalnet.Base.Sets.{has, Distinct}
use metalnet.Base.Result.{Err, ok}
use metalnet.Base.Exec.{context, gather, ◌>>=◌}
use metalnet.Effects.{Env, Call, Reply, M, World, Answer, call, gives}
use metalnet.Effects.Traces.{Made, Made-same}
use metalnet.Interface.Parts.{to_visit, report}
use metalnet.Interface.Visits.{replay, Asks, Asks-listed}
use metalnet.Interface.Turns.{turn, round, has-round, rounds-settle}

module _ {A : Type 0} ⦃e : Equality A⦄ (change : Call → List A → List A) (env : Env) (c : Call)
    (set : Reply c → List A) where
  -- In `w` dp-service answers `i`; then the calls were made that, each doing what it asks for, make
  -- the set of the answer the set of the elements that pass the test.
  abbrev pub Leaves : Reply c → (A → Bool) → World → World → Type 0
  Leaves i test w w' =
      (env.answer w.trace c ≡ gives i)
      × ((cs : List Call) × Made (c ∷ cs) w w'
          × ((a : A) → has (replay change cs (set i)) a ≡ test a))

  -- In `w` dp-service answered `i`, and `cs` were the other calls from then to `w'`; in `v` it lists
  -- the set that they have left.
  abbrev pub Shows : Reply c → List Call → World → World → World → Type 0
  Shows i cs w w' v =
      (env.answer w.trace c ≡ gives i)
      × Made (c ∷ cs) w w'
      × ((j : Reply c) × (env.answer v.trace c ≡ gives j)
          × ((a : A) → has (set j) a ≡ has (replay change cs (set i)) a))

  -- Both sets if the first is the smaller one, and what they share if not.
  abbrev pub merged : List A → List A → A → Bool
  merged d t a = if ltb (length d) (length t) then has d a || has t a else has d a && has t a

  module _ (text : A → String) (t : String) (spec : List A) (body : Reply c → A → M (Unit {0}))
      (label : A → Err → Err) (t' : String)
      (asks : (i : Reply c) (x : A) → Asks change (body i x) (turn (set i) spec x)) where
    abbrev pub handler : M (Unit {0})
    handler = context t (call env c) >>= λ i.
        gather (to_visit text (set i) spec) (body i) label >>= report t'

    handler-round :
        (w : World)
        → (handler w).0 ≡ ok tt
        → (i : Reply c) × Leaves i (has (round text (set i) spec)) w (handler w).1
    unfolding round
    handler-round w h =
        let (i, got, (cs, made, asked)) =
          Asks-listed change env c t (λ i. to_visit text (set i) spec) body label t'
            (λ i. turn (set i) spec) asks w h in
        (i, (got, (cs, made, λ p. rw (asked (set i)) refl)))

    pub handler-Leaves :
        (w : World)
        → (handler w).0 ≡ ok tt
        → (i : Reply c) × Leaves i (merged (set i) spec) w (handler w).1
    handler-Leaves w h =
        let (i, (got, (cs, made, left))) = handler-round w h in
        (i, (got, (cs, made, λ a. left a ∙ has-round text (set i) spec a)))

    pub handler-settles :
        (w v : World) (i : Reply c) (cs : List Call)
        → ((i : Reply c) → Distinct (set i))
        → Distinct spec
        → (handler w).0 ≡ ok tt
        → (handler v).0 ≡ ok tt
        → Shows i cs w (handler w).1 v
        → (j : Reply c) × Leaves j (has spec) v (handler v).1
    handler-settles w v i cs ds dt h k (at_w, made, (j, at_v, shown)) =
        let (i', (got, (cs', made', left))) = handler-round w h in
        let (j', (got', (ds', made₂, left'))) = handler-round v k in
        let same_i : i' ≡ i = one_answer (sym got ∙ at_w) in
        let same_j : j ≡ j' = one_answer (sym at_v ∙ got') in
        let same_cs : cs ≡ cs' = cc (Made-same (c ∷ cs) (c ∷ cs') w (handler w).1 made made') in
        let start : (a : A) → has (set j') a ≡ has (round text (set i) spec) a = λ a.
          subst (λ x. has (set x) a ≡ has (round text (set i) spec) a) same_j
            (shown a
              ∙ subst (λ x. has (replay change cs (set x)) a ≡ has (round text (set x) spec) a)
                  same_i
                  (subst (λ x. has (replay change x (set i')) a ≡ has (round text (set i') spec) a)
                    (sym same_cs) (left a))) in
        (
          j',
          (
            got',
            (
              ds',
              made₂,
              λ a. left' a ∙ rounds-settle text (set i) spec (set j') dt (ds j') start a,
            ),
          ),
        )
      where
        one_answer : {B : Type 0} {x y : B} → Path (Answer B) (gives x) (gives y) → x ≡ y
        one_answer p = ground (arith, p)
