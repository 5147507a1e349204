-- ===== src/Neighbour/Tests.antt =====
-- libp-neighbour.c: runs on concrete tables.
use libp.Base.{
  ℕ, List, ◌≡◌, refl, true, ◌==◌, if◌then◌else◌, none, some, [], ◌∷◌, has, arith, Bool-cases, inl,
  inr,
}
use libp.Contiki.Plain.{plain, take_slot, first_free, plain-ListLaws, plain-MembLaws}
use libp.Metric
use libp.Metric.{LinkMetric}
use libp.Neighbour.{
  Neighbour, Table, add, find, best, periodic, recycle, cost, pick, allocate, set_congested, num,
  get, list, rtmetric_of, rx, is_congested, link_metric, find_in,
}
use libp.Neighbour.Choice.{IsBest, best-IsBest, best-set_congested}
use libp.Neighbour.Inv.{IsValid}
use libp.Neighbour.Store.{Stores, add-Stores, add-stale}
use libp.Neighbour.Periodic.{periodic_keeps, Listed}
use libp.Neighbour.Overdue.{periodic_skips}
use libp.Neighbour.View.{view}
use libp.Neighbour.Abstract.{adds, removes, hears, sends, ages, purges, Op, Steps, performs}
use libp.Neighbour.Refine.{performs-Steps}

abbrev pub link : LinkMetric
link = record {
  children_accumulator = 8;
  num_children = 0;
  etx_accumulator = 16;
  num_estimates = 3;
}

abbrev pub neighbour : (addr rtmetric age : ℕ) → Neighbour
neighbour addr rtmetric age = record {
  addr = addr;
  rtmetric = rtmetric;
  age = age;
  lm_age = 0;
  penalty = 0;
  lm = link;
  congested_timer = 0;
}

-- Two neighbours of the given age, at the addresses 5 and 6.
abbrev two_of_age : ℕ → Table
two_of_age age = record {
  mem = λ p. if p == 0 then neighbour 5 40 age else neighbour 6 8 age;
  pool = 0 ∷ 1 ∷ [];
  chain = 0 ∷ 1 ∷ [];
  initialized = 1;
}

pub link-IsValid : Metric.Bounds.IsValid link
link-IsValid = record { counted = omega arith; bounded = omega arith; positive = λ h. omega arith }

pub two_of_age-IsValid : (age : ℕ) → IsValid (two_of_age age)
unfolding find_in
two_of_age-IsValid age = record {
  held = λ p h. h;
  within = λ p h. ground arith;
  apart = (refl, (refl, tt));
  metrics =
      λ p. elim (Bool-cases (p == 0)) [ inl e ↦ rw e link-IsValid | inr e ↦ rw e link-IsValid ];
}

abbrev pub young : Table
young = two_of_age 3

best_test : best young ≡ some 1
unfolding best cost Metric.metric
best_test = refl

lookup_test :
    (num young ≡ 2)
    × (get young 1 ≡ some 1)
    × (get young 2 ≡ none)
    × (list young ≡ 0 ∷ 1 ∷ [])
    × (rtmetric_of young (some 1) ≡ 8)
    × (rtmetric_of young none ≡ 0)
unfolding num get list rtmetric_of
lookup_test = (refl, refl, refl, refl, refl, refl)

rx_test : ((rx young (some 0)).mem 0).age ≡ 0
unfolding rx
rx_test = refl

congestion_test :
    (is_congested ((set_congested young (some 0) 10).mem 0) 100 ≡ true)
    × (link_metric ((set_congested young (some 0) 10).mem 0) 100 ≡ 80)
unfolding is_congested link_metric set_congested Metric.metric
congestion_test = (refl, refl)

add-Stores_example : Stores plain-ListLaws plain-MembLaws young 7 16 (add young 7 16)
add-Stores_example = add-Stores plain-ListLaws plain-MembLaws young 7 16 (two_of_age-IsValid 3)

best-IsBest_example : IsBest young (best young)
best-IsBest_example = best-IsBest young

best-set_congested_example : best (set_congested young (some 1) 10) ≡ best young
best-set_congested_example = best-set_congested young (some 1) 10

periodic_keeps_example :
    (t' : Table) × (periodic young ≡ some t')
    × Listed plain-ListLaws plain-MembLaws 1 (young.mem 1) 4 t' []
periodic_keeps_example =
    periodic_keeps plain-ListLaws plain-MembLaws young 1 (two_of_age-IsValid 3) refl (omega arith)
      (omega arith)

periodic_skips_example :
    (t' : Table) × (periodic (two_of_age 179) ≡ some t')
    × (has 1 (plain.items t'.chain) ≡ true)
    × ((t'.mem 1).age ≡ 180)
periodic_skips_example =
    periodic_skips plain-ListLaws plain-MembLaws (two_of_age 179) 0 1 [] (two_of_age-IsValid 179)
      refl refl refl

add_test : (add young 7 16).0 ≡ true
unfolding add find recycle pick allocate take_slot first_free
add_test = refl

add-stale_example :
    (p : ℕ) × (find (add young 7 16).1 7 ≡ some p)
    × (Metric.metric ((add young 7 16).1.mem p).lm ≡ Metric.metric (young.mem p).lm)
add-stale_example =
    add-stale plain-ListLaws plain-MembLaws young 7 16 (two_of_age-IsValid 3) add_test

abbrev a_day : List Op
a_day = adds 7 30 ∷ sends 5 2 ∷ hears 6 16 ∷ removes 5 ∷ ages ∷ purges ∷ []

performs-Steps_example :
    (t : Table) × (performs a_day young ≡ some t) × IsValid t × Steps (view young) a_day (view t)
performs-Steps_example =
    performs-Steps plain-ListLaws plain-MembLaws a_day young (two_of_age-IsValid 3)
