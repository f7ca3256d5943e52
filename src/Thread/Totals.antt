-- ===== src/Thread/Totals.antt =====
-- main/thread.c: the totals of a list of routers, and what count_children adds up of a child table.
use cores3_epskc_commissione.Base.{
  ℕ, ◌+◌, ◌^◌, ◌<◌, ◌≡◌, refl, sym, ◌∙◌, Bool, true, false, not, ◌&&◌, ◌||◌, Option, none, some,
  List, [], ◌∷◌, ltb, ◌==◌, if◌then◌else◌, length, arith,
}
use cores3_epskc_commissione.Thread.Topology.{
  u16, Child, Router, bit, Counted, count_loop, nothing_counted, count_children, is_none,
}

-- The routers of a scan that count: of those with a number below 64, the first one with each number.
abbrev pub distinct : (ℕ → Bool) → List Router → List Router
distinct seen [] = []
distinct seen (r ∷ rs) =
    if ltb r.id 64 && not (seen r.id)
    then r ∷ distinct (λ i. (i == r.id) || seen i) rs
    else distinct seen rs

abbrev pub child_list : Option (List Child) → List Child
child_list none = []
child_list (some cs) = cs

abbrev pub count_borders : List Child → ℕ
count_borders [] = 0
count_borders (c ∷ cs) = bit c.border_router + count_borders cs

abbrev pub any_self : List Child → Bool
any_self [] = false
any_self (c ∷ cs) = c.this_device || any_self cs

-- The sums over the routers.
abbrev pub total_children : List Router → ℕ
total_children [] = 0
total_children (r ∷ rs) = length (child_list r.children) + total_children rs

abbrev pub total_borders : List Router → ℕ
total_borders [] = 0
total_borders (r ∷ rs) =
    bit r.border_router + count_borders (child_list r.children) + total_borders rs

abbrev pub found_self : List Router → Bool
found_self [] = false
found_self (r ∷ rs) = (r.this_device || any_self (child_list r.children)) || found_self rs

abbrev pub lacks_table : List Router → Bool
lacks_table [] = false
lacks_table (r ∷ rs) = is_none r.children || lacks_table rs

pub or_assoc : (a b c : Bool) → ((a || b) || c) ≡ (a || (b || c))
or_assoc true b c = refl
or_assoc false b c = refl

pub or_four : (a b c d : Bool) → (((a || b) || c) || d) ≡ (a || ((b || c) || d))
or_four true b c d = refl
or_four false b c d = refl

pub or_false : (a : Bool) → (a || false) ≡ a
or_false true = refl
or_false false = refl

count_loop-children :
    (cs : List Child) (n : Counted)
    → n.children < 2 ^ 16
    → (count_loop cs n).children ≡ u16 (n.children + length cs)
unfolding count_loop
count_loop-children [] n l = omega arith
count_loop-children (c ∷ cs) n l = omega (
  arith,
  count_loop-children cs
      (record {
        children = u16 (n.children + 1);
        border_routers = u16 (n.border_routers + bit c.border_router);
        self = n.self || c.this_device;
      })
      (omega arith),
)

count_loop-borders :
    (cs : List Child) (n : Counted)
    → n.border_routers < 2 ^ 16
    → (count_loop cs n).border_routers ≡ u16 (n.border_routers + count_borders cs)
unfolding count_loop
count_loop-borders [] n l = omega arith
count_loop-borders (c ∷ cs) n l = omega (
  arith,
  count_loop-borders cs
      (record {
        children = u16 (n.children + 1);
        border_routers = u16 (n.border_routers + bit c.border_router);
        self = n.self || c.this_device;
      })
      (omega arith),
)

count_loop-self : (cs : List Child) (n : Counted) → (count_loop cs n).self ≡ (n.self || any_self cs)
unfolding count_loop
count_loop-self [] n = sym (or_false n.self)
count_loop-self (c ∷ cs) n =
    count_loop-self cs (record {
      children = u16 (n.children + 1);
      border_routers = u16 (n.border_routers + bit c.border_router);
      self = n.self || c.this_device;
    })
    ∙ or_assoc n.self c.this_device (any_self cs)

pub count_children-totals :
    (o : Option (List Child))
    → ((count_children o).children ≡ u16 (length (child_list o)))
      × ((count_children o).border_routers ≡ u16 (count_borders (child_list o)))
      × ((count_children o).self ≡ any_self (child_list o))
unfolding count_children
count_children-totals none = (refl, refl, refl)
count_children-totals (some cs) = (
  omega (arith, count_loop-children cs nothing_counted (omega arith)),
  omega (arith, count_loop-borders cs nothing_counted (omega arith)),
  count_loop-self cs nothing_counted,
)
