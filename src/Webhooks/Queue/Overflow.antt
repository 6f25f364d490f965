-- ===== src/Webhooks/Queue/Overflow.antt =====
-- Lemmas on Publish of the event queue (internal/webhooks/dispatcher.go).
use mathlib.Core.List.{append_assoc, append-nil}
use otel_fleet.Prelude.{
  ◌≡◌, refl, ap, sym, ◌∙◌, inl, inr, ℕ, zero, suc, ◌+◌, ◌-◌, ◌≤◌, ◌<◌, true, false, some, List, [],
  ◌∷◌, ◌++◌, length, length-append, drop, if◌then◌else◌, arith, Bool-cases,
}
use otel_fleet.Webhooks.Queue.{
  queue_size, Move, take, put, has_room, send, moved, later, publish_with,
}

module _ {E : Type 0} where
  abbrev pub takes : List (Move E) → ℕ
  takes [] = 0
  takes (take ∷ ms) = suc (takes ms)
  takes (put e ∷ ms) = takes ms

  abbrev pub puts : List (Move E) → ℕ
  puts [] = 0
  puts (take ∷ ms) = puts ms
  puts (put e ∷ ms) = suc (puts ms)

  -- What the others take and try to put in so many rounds.
  abbrev pub takes_in : ℕ → (ℕ → List (Move E)) → ℕ
  takes_in zero others = 0
  takes_in (suc n) others = takes (others 0) + takes (others 1) + takes_in n (later others)

  abbrev pub puts_in : ℕ → (ℕ → List (Move E)) → ℕ
  puts_in zero others = 0
  puts_in (suc n) others = puts (others 0) + puts (others 1) + puts_in n (later others)

  -- The events that the moves bring in, in their order.
  abbrev pub entered : List (Move E) → List E → List E
  entered [] q = []
  entered (take ∷ ms) q = entered ms (drop 1 q)
  entered (put e ∷ ms) q = let rest = entered ms (send e q) in if has_room q then e ∷ rest else rest

  -- The events that come in before the call has ended.
  abbrev pub arrivals : ℕ → (ℕ → List (Move E)) → List E → List E
  arrivals zero others q = []
  arrivals (suc fuel) others q =
      let here = moved (others 0) q in
      let next = arrivals fuel (later others) (drop 1 (moved (others 1) here)) in
      entered (others 0) q ++ (if has_room here then [] else entered (others 1) here ++ next)

  length-drop : (n : ℕ) (q : List E) → length (drop n q) ≡ length q - n
  length-drop zero q = omega arith
  length-drop (suc n) [] = omega arith
  length-drop (suc n) (x ∷ q) = omega (arith, length-drop n q)

  -- Dropping twice, with more at the end in between.
  drop_into :
      (c n : ℕ) (l m : List E) → (k : ℕ) × (k ≤ n + c) × (drop c (drop n l ++ m) ≡ drop k (l ++ m))
  drop_into c zero l m = (c, omega arith, refl)
  drop_into c (suc n) [] m = (c, omega arith, refl)
  drop_into c (suc n) (x ∷ l) m = let (k, h, e) = drop_into c n l m in (suc k, omega (arith, h), e)

  moved_lem :
      (ms : List (Move E)) (q : List E)
      → (n : ℕ) × (n ≤ takes ms) × (moved ms q ≡ drop n (q ++ entered ms q))
  unfolding moved
  moved_lem [] q = (0, omega arith, sym (append-nil q))
  moved_lem (take ∷ ms) q =
      let (n, h, e) = moved_lem ms (drop 1 q) in
      let (k, i, f) = drop_into n 1 q (entered ms (drop 1 q)) in (k, omega (arith, h, i), e ∙ f)
  moved_lem (put x ∷ ms) q = elim (Bool-cases (has_room q)) [
    | inl r ↦
        let (n, h, e) = moved_lem ms (q ++ x ∷ []) in
        (n, h, rw r (e ∙ ap (drop n) (append_assoc q (x ∷ []) (entered ms (q ++ x ∷ [])))))
    | inr r ↦ let (n, h, e) = moved_lem ms q in (n, h, rw r e)
  ]

  moved-length :
      (ms : List (Move E)) (q : List E)
      → length q ≤ queue_size
      → (length (moved ms q) ≤ queue_size) × (length (moved ms q) ≤ length q + puts ms)
  unfolding moved
  moved-length [] q h = (h, omega arith)
  moved-length (take ∷ ms) q h =
      let (a, b) = moved-length ms (drop 1 q) (omega (arith, length-drop 1 q)) in
      (a, omega (arith, b, length-drop 1 q))
  moved-length (put x ∷ ms) q h = elim (Bool-cases (has_room q)) [
    | inl r ↦
        let grown = length-append q (x ∷ []) in
        let (a, b) = moved-length ms (q ++ x ∷ []) (ground (arith, grown)) in
        rw r (a, omega (arith, b, grown))
    | inr r ↦ let (a, b) = moved-length ms q h in rw r (a, omega (arith, b))
  ]

  -- The event is in, last; before it stands what was there or has come since, without some of the
  -- oldest: those that the others took, and at most one for each round of this call but the last.
  pub record IsPublished (fuel rounds : ℕ) (others : ℕ → List (Move E)) (evt : E) (q : List E)
      : Type 0 where
    pub before : List E
    pub lost : ℕ
    pub returned : publish_with fuel others evt q ≡ some (before ++ evt ∷ [])
    pub room : length before < queue_size
    pub newest : before ≡ drop lost (q ++ arrivals fuel others q)
    pub few : lost ≤ takes_in fuel others + rounds
    pub at_once : length (moved (others 0) q) < queue_size → before ≡ moved (others 0) q

  sent_now :
      (fuel rounds : ℕ) (others : ℕ → List (Move E)) (evt : E) (q : List E)
      → has_room (moved (others 0) q) ≡ true
      → IsPublished (suc fuel) rounds others evt q
  unfolding publish_with
  sent_now fuel rounds others evt q r =
      let (n, h, e) = moved_lem (others 0) q in
      record {
        before = moved (others 0) q;
        lost = n;
        returned = rw r;
        room = ground arith;
        newest = rw r (e ∙ ap (λ l. drop n (q ++ l)) (sym (append-nil (entered (others 0) q))));
        few = omega (arith, h);
        at_once = λ _. refl;
      }

  one_dropped :
      (fuel rounds : ℕ) (others : ℕ → List (Move E)) (evt : E) (q : List E)
      → has_room (moved (others 0) q) ≡ false
      → IsPublished fuel rounds (later others) evt (drop 1 (moved (others 1) (moved (others 0) q)))
      → IsPublished (suc fuel) (suc rounds) others evt q
  unfolding publish_with
  one_dropped fuel rounds others evt q r p =
      let here = moved (others 0) q in
      let then_there = moved (others 1) here in
      let (a, ha, ea) = moved_lem (others 0) q in
      let (b, hb, eb) = moved_lem (others 1) here in
      let last = arrivals fuel (later others) (drop 1 then_there) in
      let (i, hi, ei) = drop_into p.lost 1 then_there last in
      let (j, hj, ej) = drop_into i b (here ++ entered (others 1) here) last in
      let (k, hk, ek) =
        drop_into j a (q ++ entered (others 0) q) (entered (others 1) here ++ last) in
      record {
        before = p.before;
        lost = k;
        returned = rw r p.returned;
        room = p.room;
        newest = rw r (
            p.newest
            ∙ ei
            ∙ ap (λ l. drop i (l ++ last)) eb
            ∙ ej
            ∙ ap (drop j) (append_assoc here (entered (others 1) here) last)
            ∙ ap (λ l. drop j (l ++ (entered (others 1) here ++ last))) ea
            ∙ ek
            ∙ ap (drop k)
                (append_assoc q (entered (others 0) q) (entered (others 1) here ++ last)));
        few = omega (arith, p.few, hi, hj, hk, ha, hb);
        at_once = λ small. absurd (ground arith);
      }

  -- After a round that dropped an event, only a put of another call can fill the queue again.
  room-IsPublished :
      (n : ℕ) (others : ℕ → List (Move E)) (evt : E) (q : List E)
      → length q < queue_size
      → puts_in (suc n) others ≤ n
      → IsPublished (suc n) n others evt q
  room-IsPublished zero others evt q h b = elim (Bool-cases (has_room (moved (others 0) q))) [
    | inl r ↦ sent_now 0 0 others evt q r
    | inr r ↦ absurd (
        ground
          (arith, (moved-length (others 0) q (ground arith)).1, puts_none (others 0) (others 1) b))
  ]
    where
      puts_none : (a c : List (Move E)) → puts a + puts c + 0 ≤ 0 → puts a ≡ 0
      puts_none a c z = omega (arith, z)
  room-IsPublished (suc n) others evt q h b = elim (Bool-cases (has_room (moved (others 0) q))) [
    | inl r ↦ sent_now (suc n) (suc n) others evt q r
    | inr r ↦
        let (full, more) = moved-length (others 0) q (ground arith) in
        one_dropped (suc n) n others evt q r (
          room-IsPublished n (later others) evt (drop 1 (moved (others 1) (moved (others 0) q)))
            (freed (others 0) q full)
            (fewer (puts (others 0)) (puts (others 1)) (puts_in (suc n) (later others)) b
              (ground (arith, more))))
  ]
    where
      freed :
          (ms : List (Move E)) (q : List E)
          → length (moved ms q) ≤ queue_size
          → length (drop 1 (moved (others 1) (moved ms q))) < queue_size
      freed ms q full = omega (
        arith,
        length-drop 1 (moved (others 1) (moved ms q)),
        (moved-length (others 1) (moved ms q) full).0,
      )

      fewer : (a c d : ℕ) → a + c + d ≤ suc n → 1 ≤ a → d ≤ n
      fewer a c d z o = omega (arith, z, o)

  -- Publish comes to its end: if, in the rounds that are counted, the other calls try to send at most n
  -- events, the event is in the queue after at most n + 2 rounds of the loop, whatever the others do
  -- before each select. It is then the last one and the queue is within its bound; before it stands
  -- what was there or has come since, in order, without some of the oldest: those that the others
  -- took and at most n + 1 that this call dropped. Where the first select finds room, none is dropped.
  pub publish-IsPublished :
      (n : ℕ) (others : ℕ → List (Move E)) (evt : E) (q : List E)
      → length q ≤ queue_size
      → puts_in (suc (suc n)) others ≤ n
      → IsPublished (suc (suc n)) (suc n) others evt q
  publish-IsPublished n others evt q h b = elim (Bool-cases (has_room (moved (others 0) q))) [
    | inl r ↦ sent_now (suc n) (suc n) others evt q r
    | inr r ↦ one_dropped (suc n) n others evt q r (
        room-IsPublished n (later others) evt (drop 1 (moved (others 1) (moved (others 0) q)))
          (omega (
            arith,
            length-drop 1 (moved (others 1) (moved (others 0) q)),
            (moved-length (others 1) (moved (others 0) q) (moved-length (others 0) q h).0).0,
          ))
          (fewer (puts (others 0)) (puts (others 1)) (puts_in (suc n) (later others)) b))
  ]
    where
      fewer : (a c d : ℕ) → a + c + d ≤ n → d ≤ n
      fewer a c d z = omega (arith, z)
