-- ===== src/Outbound/Cycle/Search.antt =====
-- The search for a cycle: what a call answers, and that it ends.
use em_wall.Prelude.{
  ℕ, zero, suc, ◌+◌, ◌≤◌, ◌<◌, ◌≡◌, ◌∙◌, refl, sym, subst, true, false, List, [], ◌∷◌, Text, ◌==◌,
  nat_eq, text_eq, text_beq_iff, is_listed, if◌then◌else◌, arith, Bool-cases, inl, inr,
}
use em_wall.Outbound.Cycle.{
  Graph, targets, Colors, paint, visiting, finished, Answer, cyclic, out_of_fuel, acyclic, and_then,
  visit, dfs,
}

-- The walks of the graph, and a cycle that a walk from `n` reaches.
pub data Reaches (adj : Graph) : Text → Text → Type 0 where
  here : {n : Text} → Reaches adj n n
  step : {n m k : Text} → is_listed m (targets adj n) ≡ true → Reaches adj m k → Reaches adj n k

pub record HasCycle (adj : Graph) (start : Text) : Type 0 where
  pub node : Text
  pub next : Text
  pub to_node : Reaches adj start node
  pub edge : is_listed next (targets adj node) ≡ true
  pub back : Reaches adj next node

pub Reaches-step :
    (adj : Graph) (a b c : Text)
    → Reaches adj a b
    → is_listed c (targets adj b) ≡ true
    → Reaches adj a c
Reaches-step adj a b c here e = step e here
Reaches-step adj a b c (step f r) e = step f (Reaches-step adj _ b c r e)

-- The names that are finished, latest first: each leads to earlier ones only.
abbrev pub Ordered : Graph → List Text → Type 0
Ordered adj [] = Unit
Ordered adj (n ∷ ds) =
    ((m : Text) → is_listed m (targets adj n) ≡ true → is_listed m ds ≡ true)
    × (is_listed n ds ≡ false)
    × Ordered adj ds

pub record IsSettled (adj : Graph) (c : Colors) : Type 0 where
  pub order : List Text
  pub listed : (q : Text) → (c q == finished) ≡ is_listed q order
  pub ordered : Ordered adj order

paint_self : (n : Text) (v : ℕ) (c : Colors) → paint n v c n ≡ v
unfolding paint
paint_self n v c = let same = text_beq_iff n n in ground arith

-- How many of the names are not being visited.
abbrev pub idle : Colors → List Text → ℕ
idle c [] = 0
idle c (n ∷ u) = if c n == visiting then idle c u else idle c u + 1

idle-le :
    (c d : Colors) (u : List Text)
    → ((q : Text) → c q ≡ visiting → d q ≡ visiting)
    → idle d u ≤ idle c u
idle-le c d [] h = omega arith
idle-le c d (n ∷ u) h = let ih = idle-le c d u h in let one = h n in ground arith

idle-paint :
    (c : Colors) (n : Text) (u : List Text)
    → is_listed n u ≡ true
    → c n ≡ 0
    → idle (paint n visiting c) u < idle c u
unfolding paint
idle-paint c n [] h e = ground arith
idle-paint c n (k ∷ u) h e =
    let same = text_beq_iff n k in
    let rest = idle-le c (paint n visiting c) u (λ q on. ground arith) in
    elim (Bool-cases (n == k)) [
      | inl here_ ↦ let at : c k ≡ 0 = subst (λ j. c j ≡ 0) (same.0 here_) e in ground arith
      | inr other ↦ let flip = text_beq_iff k n in let ih = idle-paint c n u in ground arith
    ]

module _ (adj : Graph) (start : Text) (u : List Text)
    (closed : (n m : Text) → is_listed m (targets adj n) ≡ true → is_listed m u ≡ true) where
  -- What holds of the colours when `n` is being visited, or is about to be.
  pub record OnPath (c : Colors) (n : Text) : Type 0 where
    pub settled : IsSettled adj c
    pub to_name : Reaches adj start n
    pub behind : (q : Text) → c q ≡ visiting → Reaches adj q n
    pub three : (q : Text) → c q ≤ finished

  -- A call leaves the names that are visited as they were and the finished ones finished.
  pub record IsExtended (c d : Colors) : Type 0 where
    pub settled : IsSettled adj d
    pub same : (q : Text) → (d q == visiting) ≡ (c q == visiting)
    pub kept : (q : Text) → c q ≡ finished → d q ≡ finished
    pub three : (q : Text) → d q ≤ finished

  abbrev pub Answered : Colors → (Colors → Type 0) → Answer → Type 0
  Answered c P cyclic = HasCycle adj start
  Answered c P out_of_fuel = true ≡ false
  Answered c P (acyclic d) = IsExtended c d × P d

  and_then-Answered :
      (c e : Colors) (P Q : Colors → Type 0) (a : Answer) (f : Colors → Answer)
      → Answered c P a
      → ((d : Colors) → IsExtended c d → P d → Answered e Q (f d))
      → Answered e Q (and_then a f)
  and_then-Answered c e P Q cyclic f h g = h
  and_then-Answered c e P Q out_of_fuel f h g = h
  and_then-Answered c e P Q (acyclic d) f h g = g d h.0 h.1

  IsExtended-trans : (c d e : Colors) → IsExtended c d → IsExtended d e → IsExtended c e
  IsExtended-trans c d e f g = record {
    settled = g.settled;
    same = λ q. g.same q ∙ f.same q;
    kept = λ q h. g.kept q (f.kept q h);
    three = g.three;
  }

  Answered-trans :
      (c d : Colors) (P : Colors → Type 0) (a : Answer)
      → IsExtended c d
      → Answered d P a
      → Answered c P a
  Answered-trans c d P cyclic e h = h
  Answered-trans c d P out_of_fuel e h = h
  Answered-trans c d P (acyclic f) e h = (IsExtended-trans c d f e h.0, h.1)

  Answered-weaken :
      (c : Colors) (P Q : Colors → Type 0) (a : Answer)
      → ((d : Colors) → IsExtended c d → P d → Q d)
      → Answered c P a
      → Answered c Q a
  Answered-weaken c P Q cyclic f h = h
  Answered-weaken c P Q out_of_fuel f h = h
  Answered-weaken c P Q (acyclic d) f h = (h.0, f d h.0 h.1)

  OnPath-extended : (c d : Colors) (n : Text) → OnPath c n → IsExtended c d → OnPath d n
  OnPath-extended c d n p e = record {
    settled = e.settled;
    to_name = p.to_name;
    three = e.three;
    behind = λ q on. let same = e.same q in p.behind q (ground arith);
  }

  OnPath-step :
      (c : Colors) (n m : Text) → OnPath c n → is_listed m (targets adj n) ≡ true → OnPath c m
  OnPath-step c n m p e = record {
    settled = p.settled;
    three = p.three;
    to_name = Reaches-step adj start n m p.to_name e;
    behind = λ q on. Reaches-step adj q n m (p.behind q on) e;
  }

  abbrev EveryFinished : List Text → Colors → Type 0
  EveryFinished ms d = (q : Text) → is_listed q ms ≡ true → d q ≡ finished

  -- A search that answers as it should for the next names.
  abbrev pub Answers : ℕ → (Colors → Text → Answer) → Type 0
  Answers k seek =
      (c : Colors) (n : Text)
      → OnPath c n
      → c n ≡ 0
      → is_listed n u ≡ true
      → idle c u < k
      → Answered c (λ d. d n ≡ finished) (seek c n)

  visit-Answered :
      (k : ℕ) (seek : Colors → Text → Answer)
      → Answers k seek
      → (n : Text) (ms : List Text)
      → ((m : Text) → is_listed m ms ≡ true → is_listed m (targets adj n) ≡ true)
      → (c : Colors) → OnPath c n
      → c n ≡ visiting
      → idle c u < k
      → Answered c (EveryFinished ms) (visit seek c ms)
  unfolding visit
  visit-Answered k seek good n [] sub c p on fuel = (
    record { settled = p.settled; same = λ q. refl; kept = λ q h. h; three = p.three },
    λ q h. cc,
  )
  visit-Answered k seek good n (m ∷ ms) sub c p on fuel =
      let listed : is_listed m (m ∷ ms) ≡ true = let r = text_beq_iff m m in ground arith in
      let edge = sub m listed in
      let later = λ (q : Text) (h : is_listed q ms ≡ true). sub q (ground arith) in
      elim (Bool-cases (c m == visiting)) [
        | inl seen ↦
            rw (seen, visit)
              (record {
                node = n;
                next = m;
                to_node = p.to_name;
                edge = edge;
                back = p.behind m (ground arith);
              })
        | inr not_seen ↦ elim (Bool-cases (c m == 0)) [
          | inl fresh ↦
              rw (not_seen, fresh, visit)
                (and_then-Answered c c (λ d. d m ≡ finished) (EveryFinished (m ∷ ms)) (seek c m)
                  (λ d. visit seek d ms)
                  (good c m (OnPath-step c n m p edge) (ground arith) (closed n m edge) fuel)
                  (λ d e done.
                    let same = e.same n in
                    let on_d : d n ≡ visiting = ground arith in
                    let le = idle-le c d u (λ q v. let s = e.same q in ground arith) in
                    let less : idle d u < k = omega arith in
                    Answered-weaken c (λ x. EveryFinished ms x × (x m ≡ finished))
                      (EveryFinished (m ∷ ms)) (visit seek d ms)
                      (λ x ex h q l. elim (Bool-cases (m == q)) [
                        | inl is_m ↦ subst (λ z. x z ≡ finished) ((text_beq_iff m q).0 is_m) h.1
                        | inr other ↦ h.0 q (ground arith)
                      ])
                      (Answered-trans c d (λ x. EveryFinished ms x × (x m ≡ finished))
                        (visit seek d ms) e
                        (Answered-weaken d (EveryFinished ms)
                          (λ x. EveryFinished ms x × (x m ≡ finished)) (visit seek d ms)
                          (λ x ex h. (h, ex.kept m done))
                          (visit-Answered k seek good n ms later d (OnPath-extended c d n p e) on_d
                            less)))))
          | inr old ↦
              rw (not_seen, old, visit)
                (Answered-weaken c (EveryFinished ms) (EveryFinished (m ∷ ms)) (visit seek c ms)
                  (λ x ex h q l. elim (Bool-cases (m == q)) [
                    | inl is_m ↦
                        let top = p.three m in
                        subst (λ z. x z ≡ finished) ((text_beq_iff m q).0 is_m)
                          (ex.kept m (ground arith))
                    | inr other ↦ h q (ground arith)
                  ])
                  (visit-Answered k seek good n ms later c p on fuel))
        ]
      ]

  OnPath-paint : (c : Colors) (n : Text) → OnPath c n → c n ≡ 0 → OnPath (paint n visiting c) n
  unfolding paint
  OnPath-paint c n p fresh = record {
    settled = record {
      order = p.settled.order;
      ordered = p.settled.ordered;
      listed = λ q.
          let l = p.settled.listed q in
          elim (Bool-cases (n == q)) [
            | inl same ↦
                let at = subst (λ j. c j ≡ 0) ((text_beq_iff n q).0 same) fresh in ground arith
            | inr other ↦ ground arith
          ];
    };
    to_name = p.to_name;
    behind = λ q on. elim (Bool-cases (n == q)) [
      | inl same ↦ subst (λ j. Reaches adj q j) (sym ((text_beq_iff n q).0 same)) here
      | inr other ↦ p.behind q (ground arith)
    ];
    three = λ q. let t = p.three q in ground arith;
  }

  -- All targets of `n` are finished: `n` is, too.
  finish-IsExtended :
      (c d : Colors) (n : Text)
      → c n ≡ 0
      → IsExtended (paint n visiting c) d
      → EveryFinished (targets adj n) d
      → IsExtended c (paint n finished d)
  unfolding paint
  finish-IsExtended c d n fresh e every =
      let at_n = text_beq_iff n n in
      let on = e.same n in
      record {
        settled = record {
          order = n ∷ e.settled.order;
          listed = λ q. let l = e.settled.listed q in ground arith;
          ordered = (
            λ m edge. let l = e.settled.listed m in let done = every m edge in ground arith,
            let l = e.settled.listed n in ground arith,
            e.settled.ordered,
          );
        };
        same = λ q.
            let s = e.same q in
            elim (Bool-cases (n == q)) [
              | inl same ↦
                  let at = subst (λ j. c j ≡ 0) ((text_beq_iff n q).0 same) fresh in ground arith
              | inr other ↦ ground arith
            ];
        kept = λ q h.
            let k = e.kept q in
            elim (Bool-cases (n == q)) [ inl same ↦ ground arith | inr other ↦ ground arith ];
        three = λ q. let t = e.three q in ground arith;
      }

  pub dfs-Answered : (k : ℕ) → Answers k (dfs k adj)
  unfolding dfs
  dfs-Answered zero c n p fresh in_graph fuel = ground arith
  dfs-Answered (suc k) c n p fresh in_graph fuel =
      let painted = paint n visiting c in
      let less = idle-paint c n u in_graph fresh in
      let same = text_beq_iff n n in
      and_then-Answered painted c (EveryFinished (targets adj n)) (λ d. d n ≡ finished)
        (visit (dfs k adj) painted (targets adj n)) (λ d. acyclic (paint n finished d))
        (visit-Answered k (dfs k adj) (dfs-Answered k) n (targets adj n) (λ m h. h) painted
          (OnPath-paint c n p fresh) (paint_self n visiting c) (omega arith))
        (λ d e every. (finish-IsExtended c d n fresh e every, paint_self n finished d))
