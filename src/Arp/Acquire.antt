-- ===== src/Arp/Acquire.antt =====
-- arp/cache.go: which entry `acquireNext` takes.
use lneto.Base.{
  ℕ, zero, suc, ◌+◌, ◌≤◌, ◌<◌, ◌≡◌, refl, sym, ap, ◌∙◌, subst, ◌≢◌, ◌⊎◌, inl, inr, Bool, true,
  false, not, Option, none, some, List, [], ◌∷◌, arith, ltb, if◌then◌else◌, Bool-cases, length,
  get_elem?, set, drop, get_elem?-set_self, get_elem?-set_ne, length-drop, length-map, drop-drop,
  ran,
}
use lneto.Arp.{
  age_entry, age, destroyed, acquire_next, Entry, has_priority, age_at, next_passive, scan, pick,
}

-- What holds of the entries before an index.
Before : List Entry → ℕ → (Entry → Type 0) → Type 0
Before entries i P = (j : ℕ) (e : Entry) → j < i → get_elem? entries j ≡ some e → P e

-- The entry that is taken: one that is not in use; or, when all are, the oldest of those without
-- priority; or, when all have priority, the oldest.
pub data Picked (entries : List Entry) (k : ℕ) : Type 0 where
  free : (e : Entry) → get_elem? entries k ≡ some e → e.flags.in_use ≡ false → Picked entries k
  passive :
      (e : Entry)
      → get_elem? entries k ≡ some e
      → has_priority e.flags ≡ false
      → ((j : ℕ) (x : Entry)
          → j < length entries
          → get_elem? entries j ≡ some x
          → (x.flags.in_use ≡ true) × (has_priority x.flags ≡ false → x.age ≤ e.age))
      → Picked entries k
  elder :
      (e : Entry)
      → get_elem? entries k ≡ some e
      → ((j : ℕ) (x : Entry)
          → j < length entries
          → get_elem? entries j ≡ some x
          → (x.flags.in_use ≡ true) × (has_priority x.flags ≡ true) × (x.age ≤ e.age))
      → Picked entries k

data PassiveSoFar (entries : List Entry) (i : ℕ) : Option ℕ → Type 0 where
  nobody : Before entries i (λ x. has_priority x.flags ≡ true) → PassiveSoFar entries i none
  somebody :
      (p : ℕ) (e : Entry)
      → get_elem? entries p ≡ some e
      → has_priority e.flags ≡ false
      → Before entries i (λ x. has_priority x.flags ≡ false → x.age ≤ e.age)
      → PassiveSoFar entries i (some p)

record Scanned (entries : List Entry) (i o : ℕ) (p : Option ℕ) : Type 0 where
  used : Before entries i (λ x. x.flags.in_use ≡ true)
  eldest : Before entries i (λ x. x.age ≤ age_at entries o)
  inside : (o < i) ⊎ (i ≡ 0) × (o ≡ 0)
  passive_so_far : PassiveSoFar entries i p

some-injective : (d x e : Entry) → some x ≡ some e → x ≡ e
some-injective d x e h = ap (λ o. elim o [ none ↦ d | some y ↦ y ]) h

last_or_before : (j i : ℕ) → j < i + 1 → (j ≡ i) ⊎ (j < i)
last_or_before j i h = ground arith

one_more :
    (entries : List Entry) (i : ℕ) (P : Entry → Type 0) (e : Entry)
    → get_elem? entries i ≡ some e
    → Before entries i P
    → P e
    → Before entries (i + 1) P
unfolding Before
one_more entries i P e at before here j x h get = elim (last_or_before j i h) [
  | inl same ↦
      subst P (some-injective e e x (sym at ∙ ap (get_elem? entries) (sym same) ∙ get)) here
  | inr less ↦ before j x less get
]

age_at_lem :
    (entries : List Entry) (i : ℕ) (e : Entry)
    → get_elem? entries i ≡ some e
    → age_at entries i ≡ e.age
unfolding age_at
age_at_lem entries i e at = rw (age_at, at) refl

weaken :
    (entries : List Entry) (i : ℕ) (P Q : Entry → Type 0)
    → ((x : Entry) → P x → Q x)
    → Before entries i P
    → Before entries i Q
unfolding Before
weaken entries i P Q f before j x h get = f x (before j x h get)

passive_step :
    (entries : List Entry) (i : ℕ) (e : Entry) (p : Option ℕ)
    → get_elem? entries i ≡ some e
    → PassiveSoFar entries i p
    → PassiveSoFar entries (i + 1) (next_passive entries i e p)
unfolding next_passive
passive_step entries i e _ at (nobody all) = elim (Bool-cases (has_priority e.flags)) [
  | inl y ↦ rw (next_passive, y) (nobody (one_more entries i _ e at all y))
  | inr n ↦
      rw (next_passive, n)
        (somebody i e at n (
          one_more entries i _ e at (weaken entries i _ _ (λ x y f. absurd (ground arith)) all)
            (λ f. omega arith)))
]
passive_step entries i e _ at (somebody p q get low all) =
    elim (Bool-cases (has_priority e.flags)) [
      | inl y ↦
          rw (next_passive, y)
            (somebody p q get low (one_more entries i _ e at all (λ f. absurd (ground arith))))
      | inr n ↦ elim (Bool-cases (ltb (age_at entries p) e.age)) [
        | inl older ↦
            let a = age_at_lem entries p q get in
            rw (next_passive, n, older)
              (somebody i e at n (
                one_more entries i _ e at
                  (weaken entries i _ _ (λ x f g. let b = f g in ground arith) all)
                  (λ f. omega arith)))
        | inr younger ↦
            let a = age_at_lem entries p q get in
            rw (next_passive, n, younger)
              (somebody p q get low (one_more entries i _ e at all (λ f. ground arith)))
      ]
    ]

used_if : (b : Bool) → not b ≡ false → b ≡ true
used_if true h = refl
used_if false h = sym h

drop-get :
    (entries : List Entry) (i : ℕ) (e : Entry) (rest : List Entry)
    → drop i entries ≡ e ∷ rest
    → get_elem? entries i ≡ some e
drop-get [] zero e rest h = absurd (let l = ap length h in omega arith)
drop-get [] (suc i) e rest h = absurd (let l = ap length h in omega arith)
drop-get (x ∷ xs) zero e rest h = ap (λ l. get_elem? l 0) h
drop-get (x ∷ xs) (suc i) e rest h = drop-get xs i e rest h

step :
    (entries : List Entry) (i o : ℕ) (p : Option ℕ) (e : Entry)
    → get_elem? entries i ≡ some e
    → e.flags.in_use ≡ true
    → Scanned entries i o p
    → Scanned entries
        (i + 1)
        (if ltb (age_at entries o) e.age then i else o)
        (next_passive entries i e p)
step entries i o p e at used s = elim (Bool-cases (ltb (age_at entries o) e.age)) [
  | inl older ↦ rw (older) (record {
    used = one_more entries i _ e at s.used used;
    eldest =
        one_more entries i _ e at
          (weaken entries i _ _ (λ x f. let a = age_at_lem entries i e at in ground arith) s.eldest)
          (let a = age_at_lem entries i e at in omega arith);
    inside = inl (omega arith);
    passive_so_far = passive_step entries i e p at s.passive_so_far;
  })
  | inr younger ↦ rw (younger) (record {
    used = one_more entries i _ e at s.used used;
    eldest = one_more entries i _ e at s.eldest (ground arith);
    inside = inl (elim s.inside [ inl l ↦ omega arith | inr (z, w) ↦ omega arith ]);
    passive_so_far = passive_step entries i e p at s.passive_so_far;
  })
]

get_some :
    (entries : List Entry) (i : ℕ)
    → i < length entries
    → (e : Entry) × (get_elem? entries i ≡ some e)
get_some [] i h = absurd (omega arith)
get_some (x ∷ xs) zero h = (x, refl)
get_some (x ∷ xs) (suc i) h = get_some xs i (omega arith)

past_end : (entries : List Entry) (i : ℕ) → drop i entries ≡ [] → length entries ≤ i
past_end entries i h = let l = ap length h in let d = length-drop i entries in omega arith

end-Picked :
    (entries : List Entry) (i o : ℕ) (p : Option ℕ)
    → 1 ≤ length entries
    → i ≡ length entries
    → Scanned entries i o p
    → Picked entries (elim p [ none ↦ o | some k ↦ k ])
unfolding Before
end-Picked entries i o p some_entry all s = go p s.passive_so_far
  where
    go :
        (p : Option ℕ)
        → PassiveSoFar entries i p
        → Picked entries (elim p [ none ↦ o | some k ↦ k ])
    go _ (nobody prio) =
        let inside : o < length entries = elim s.inside [
          | inl l ↦ omega arith
          | inr (z, w) ↦ omega arith
        ] in
        let (e, at) = get_some entries o inside in
        let a = age_at_lem entries o e at in
        elder e at (λ j x h get.
          let old = s.eldest j x (omega arith) get in
          (s.used j x (omega arith) get, prio j x (omega arith) get, omega arith))
    go _ (somebody k e at low old) =
        passive e at low (λ j x h get. (s.used j x (omega arith) get, old j x (omega arith) get))

scan_unused :
    (entries : List Entry) (i : ℕ) (e : Entry) (rest : List Entry) (o : ℕ) (p : Option ℕ)
    → not e.flags.in_use ≡ true
    → scan entries i (e ∷ rest) o p ≡ (i, p, true)
unfolding scan
scan_unused entries i e rest o p h = rw (scan, h) refl

scan_used :
    (entries : List Entry) (i : ℕ) (e : Entry) (rest : List Entry) (o : ℕ) (p : Option ℕ)
    → not e.flags.in_use ≡ false
    → scan entries i (e ∷ rest) o p
      ≡ scan entries
          (i + 1)
          rest
          (if ltb (age_at entries o) e.age then i else o)
          (next_passive entries i e p)
unfolding scan
scan_used entries i e rest o p h = rw (scan, h) refl

scan-Picked :
    (entries : List Entry) (i : ℕ) (rest : List Entry) (o : ℕ) (p : Option ℕ)
    → 1 ≤ length entries
    → i ≤ length entries
    → drop i entries ≡ rest
    → Scanned entries i o p
    → Picked entries (pick (scan entries i rest o p))
unfolding scan pick
scan-Picked entries i [] o p some_entry reach at s =
    let e = past_end entries i at in end-Picked entries i o p some_entry (omega arith) s
scan-Picked entries i (e ∷ rest) o p some_entry reach at s =
    elim (Bool-cases (not e.flags.in_use)) [
      | inl unused ↦
          subst (λ t. Picked entries (pick t)) (sym (scan_unused entries i e rest o p unused))
            (free e (drop-get entries i e rest at) (ground arith))
      | inr used ↦
          let l = ap length at in
          let d = length-drop i entries in
          let here = drop-get entries i e rest at in
          subst (λ t. Picked entries (pick t)) (sym (scan_used entries i e rest o p used))
            (scan-Picked entries (i + 1) rest _ _ some_entry (omega arith)
              (sym (drop-drop 1 i entries) ∙ ap (drop 1) at)
              (step entries i o p e here (used_if e.flags.in_use used) s))
    ]

pub pick-Picked :
    (entries : List Entry)
    → 1 ≤ length entries
    → Picked entries (pick (scan entries 0 entries 0 none))
unfolding Before
pick-Picked entries h = scan-Picked entries 0 entries 0 none h (omega arith) refl (record {
  used = λ j e l g. absurd (omega arith);
  eldest = λ j e l g. absurd (omega arith);
  inside = inr (refl, refl);
  passive_so_far = nobody (λ j e l g. absurd (omega arith));
})

get-inside :
    (entries : List Entry) (k : ℕ) (e : Entry) → get_elem? entries k ≡ some e → k < length entries
get-inside [] k e h = absurd (ground arith)
get-inside (x ∷ xs) zero e h = omega arith
get-inside (x ∷ xs) (suc k) e h = let i = get-inside xs k e h in omega arith

pub Picked-inside : (entries : List Entry) (k : ℕ) → Picked entries k → k < length entries
Picked-inside entries k (free e at u) = get-inside entries k e at
Picked-inside entries k (passive e at l o) = get-inside entries k e at
Picked-inside entries k (elder e at o) = get-inside entries k e at

get-age :
    (entries : List Entry) (j : ℕ) (e : Entry)
    → get_elem? entries j ≡ some e
    → get_elem? (age entries) j ≡ some (age_entry e)
unfolding age
get-age [] j e h = absurd (ground arith)
get-age (x ∷ xs) zero e h = ap (λ o. elim o [ none ↦ none | some y ↦ some (age_entry y) ]) h
get-age (x ∷ xs) (suc j) e h = get-age xs j e h

length-age : (entries : List Entry) → length (age entries) ≡ length entries
unfolding age
length-age entries = length-map entries age_entry

-- With entries, `acquireNext` does not panic. It takes an entry that is not in use; or, when all
-- are, the oldest of those without priority, which are neither queries of a user nor waiting for a
-- response; and one with priority, the oldest, only when there is no other. That entry is cleared,
-- and every other one is kept and is older by one, up to 255, if it is in use.
pub acquire_next_lem :
    (entries : List Entry)
    → 1 ≤ length entries
    → (i : ℕ) × (after : List Entry) × (acquire_next entries ≡ ran (i, after))
      × Picked entries i
      × (get_elem? after i ≡ some destroyed)
      × ((j : ℕ) (e : Entry)
          → j ≢ i
          → get_elem? entries j ≡ some e
          → get_elem? after j ≡ some (age_entry e))
unfolding acquire_next
acquire_next_lem entries h =
    let i = pick (scan entries 0 entries 0 none) in
    let picked = pick-Picked entries h in
    let inside = Picked-inside entries i picked in
    let ok : ltb i (length entries) ≡ true = ground arith in
    let size = length-age entries in
    (
      i,
      set (age entries) i destroyed,
      rw (ok) refl,
      picked,
      get_elem?-set_self (age entries) i destroyed (omega arith),
      λ j e ne get.
          get_elem?-set_ne (age entries) destroyed (λ s. ne (sym s)) ∙ get-age entries j e get,
    )
