-- ===== src/Thread/Scan.antt =====
-- main/thread.c: the counts of a topology scan against the routers that answered.
use cores3_epskc_commissione.Base.{
  ℕ, ◌+◌, ◌^◌, ◌<◌, ◌≡◌, refl, sym, subst, ◌∙◌, inl, inr, true, false, not, ◌&&◌, ◌||◌, some, none,
  Option, List, [], ◌∷◌, ◌++◌, ap, ltb, ◌==◌, if◌then◌else◌, length, arith, Bool-cases,
}
use cores3_epskc_commissione.Thread.Topology.{
  Status, scanning, complete, partial, failed, Topology, State, u16, reset, Router, bit,
  count_children, is_none, note_router, Error, pending, no_error, finish, final_status, discover_cb,
}
use cores3_epskc_commissione.Thread.Totals.{
  distinct, child_list, any_self, total_children, total_borders, found_self, lacks_table, or_assoc,
  or_four, or_false, count_children-totals,
}

-- The callbacks of a scan that is going on, one for each router.
abbrev pub scan : State → List Router → ℕ → State
scan s [] now = s
scan s (r ∷ rs) now = scan (discover_cb s pending (some r) now) rs now

-- What the routers of a list add to a state that is scanning.
pub record Adds (s t : State) (rs : List Router) : Type 0 where
  pub status : t.topology.status ≡ scanning
  pub routers : t.topology.routers_seen ≡ u16 (s.topology.routers_seen + length rs)
  pub children : t.topology.children_seen ≡ u16 (s.topology.children_seen + total_children rs)
  pub borders :
      t.topology.border_routers_seen ≡ u16 (s.topology.border_routers_seen + total_borders rs)
  pub self : t.topology.includes_self ≡ (s.topology.includes_self || found_self rs)
  pub missing : t.missing ≡ (s.missing || lacks_table rs)

-- A state that scans, with its counters in their 16 bits.
pub record IsScan (s : State) : Type 0 where
  pub status : s.topology.status ≡ scanning
  pub routers : s.topology.routers_seen < 2 ^ 16
  pub children : s.topology.children_seen < 2 ^ 16
  pub borders : s.topology.border_routers_seen < 2 ^ 16

discover_cb-pending :
    (s : State) (r : Router) (now : ℕ) → discover_cb s pending (some r) now ≡ note_router s r
unfolding discover_cb finish
discover_cb-pending s r now = ground arith

module _ (s : State) (r : Router) (scans : IsScan s) where
  note_router-skips : (ltb r.id 64 && not (s.ids r.id)) ≡ false → note_router s r ≡ s
  unfolding note_router
  note_router-skips e = ground arith

  note_router-new :
      (ltb r.id 64 && not (s.ids r.id)) ≡ true
      → let t = note_router s r in
        (t.topology.status ≡ scanning)
        × (t.topology.routers_seen ≡ u16 (s.topology.routers_seen + 1))
        × (t.topology.children_seen
            ≡ u16 (s.topology.children_seen + (count_children r.children).children))
        × (t.topology.border_routers_seen
            ≡ u16 (
                s.topology.border_routers_seen
                + bit r.border_router
                + (count_children r.children).border_routers))
        × (t.topology.includes_self
            ≡ (s.topology.includes_self || r.this_device || (count_children r.children).self))
        × (t.missing ≡ (s.missing || is_none r.children))
        × (t.ids ≡ (λ i. (i == r.id) || s.ids i))
  unfolding note_router
  note_router-new e = simp (scans.status, e) (refl, refl, refl, refl, refl, refl, refl)

Adds-new :
    (s t u : State) (r : Router) (rs : List Router)
    → let counted = count_children r.children in
      (t.topology.routers_seen ≡ u16 (s.topology.routers_seen + 1))
      → (t.topology.children_seen ≡ u16 (s.topology.children_seen + counted.children))
      → (t.topology.border_routers_seen
          ≡ u16 (s.topology.border_routers_seen + bit r.border_router + counted.border_routers))
      → (t.topology.includes_self ≡ (s.topology.includes_self || r.this_device || counted.self))
      → (t.missing ≡ (s.missing || is_none r.children))
      → Adds t u rs
      → Adds s u (r ∷ rs)
Adds-new s t u r rs a b c d e ih =
    let (kids, borders, self) = count_children-totals r.children in
    record {
      status = ih.status;
      routers = omega (arith, ih.routers, a);
      children = omega (arith, ih.children, b, kids);
      borders = omega (arith, ih.borders, c, borders);
      self =
          ih.self
          ∙ rw (d, self)
              (or_four s.topology.includes_self r.this_device (any_self (child_list r.children))
                (found_self rs));
      missing = ih.missing ∙ rw e (or_assoc s.missing (is_none r.children) (lacks_table rs));
    }

scan-Adds :
    (s : State) (rs : List Router) (now : ℕ) → IsScan s → Adds s (scan s rs now) (distinct s.ids rs)
scan-Adds s [] now i = record {
  status = i.status;
  routers = omega (arith, i.routers);
  children = omega (arith, i.children);
  borders = omega (arith, i.borders);
  self = sym (or_false s.topology.includes_self);
  missing = sym (or_false s.missing);
}
scan-Adds s (r ∷ rs) now i = elim (Bool-cases (ltb r.id 64 && not (s.ids r.id))) [
  | inr e ↦ rw (discover_cb-pending s r now, note_router-skips s r i e, e) (scan-Adds s rs now i)
  | inl e ↦
      let (status, routers, children, borders, self, missing, ids) = note_router-new s r i e in
      rw (discover_cb-pending s r now, e)
        (Adds-new s (note_router s r) (scan (note_router s r) rs now) r
          (distinct (λ j. (j == r.id) || s.ids j) rs) routers children borders self missing
          (subst (λ seen. Adds (note_router s r) (scan (note_router s r) rs now) (distinct seen rs))
            ids
            (scan-Adds (note_router s r) rs now (record {
              status = status;
              routers = omega (arith, routers);
              children = omega (arith, children);
              borders = omega (arith, borders);
            }))))
]

-- The status that a scan of routers ends with.
abbrev pub outcome : List Router → Error → Status
outcome rs no_error =
    if not (lacks_table rs)
    then complete
    else if not (u16 (length rs) == 0) || not (u16 (total_children rs) == 0)
    then partial
    else failed
outcome rs pending = scanning
outcome rs Error.other =
    if not (u16 (length rs) == 0) || not (u16 (total_children rs) == 0) then partial else failed

-- A scan whose last callback, with its error, may bring a router as well.
abbrev pub scanned : List Router → Option Router → Error → ℕ → Topology
scanned rs last error now = (discover_cb (scan (reset scanning) rs now) error last now).topology

-- The routers of all the callbacks.
abbrev pub with_last : List Router → Option Router → List Router
with_last rs none = rs
with_last rs (some r) = rs ++ (r ∷ [])

scan-append :
    (s : State) (rs : List Router) (r : Router) (now : ℕ)
    → scan s (rs ++ (r ∷ [])) now ≡ note_router (scan s rs now) r
scan-append s [] r now = discover_cb-pending s r now
scan-append s (q ∷ rs) r now = scan-append (discover_cb s pending (some q) now) rs r now

discover_cb-last :
    (s : State) (rs : List Router) (last : Option Router) (error : Error) (now : ℕ)
    → discover_cb (scan s rs now) error last now ≡ finish (scan s (with_last rs last) now) error now
unfolding discover_cb
discover_cb-last s rs none error now = refl
discover_cb-last s rs (some r) error now =
    ap (λ t. finish t error now) (sym (scan-append s rs r now))

finish-Adds :
    (s : State) (seen : List Router) (error : Error) (now : ℕ)
    → Adds (reset scanning) s seen
    → let t = (finish s error now).topology in
      (t.status ≡ outcome seen error)
      × (t.routers_seen ≡ u16 (length seen))
      × (t.children_seen ≡ u16 (total_children seen))
      × (t.border_routers_seen ≡ u16 (total_borders seen))
      × (t.includes_self ≡ found_self seen)
unfolding finish final_status reset
finish-Adds s seen pending now a =
    simp (a.status)
      (refl, omega (arith, a.routers), omega (arith, a.children), omega (arith, a.borders), a.self)
finish-Adds s seen no_error now a =
    let r : s.topology.routers_seen ≡ u16 (length seen) = omega (arith, a.routers) in
    let c : s.topology.children_seen ≡ u16 (total_children seen) = omega (arith, a.children) in
    simp (a.status, a.missing, r, c) (refl, refl, refl, omega (arith, a.borders), a.self)
finish-Adds s seen Error.other now a =
    let r : s.topology.routers_seen ≡ u16 (length seen) = omega (arith, a.routers) in
    let c : s.topology.children_seen ≡ u16 (total_children seen) = omega (arith, a.children) in
    simp (a.status, r, c) (refl, refl, refl, omega (arith, a.borders), a.self)

-- From the start of a scan on, the callbacks of any routers, in any order and with repetitions, and
-- then one with any error, which may bring a router as well, leave the counts of the distinct routers
-- of all of them with a number below 64, of their children and of the border routers among both (in 16
-- bits), whether this device is among them, and the status of the outcome.
pub scanned-distinct :
    (rs : List Router) (last : Option Router) (error : Error) (now : ℕ)
    → let seen = distinct (λ i. false) (with_last rs last) in
      let t = scanned rs last error now in
      (t.status ≡ outcome seen error)
      × (t.routers_seen ≡ u16 (length seen))
      × (t.children_seen ≡ u16 (total_children seen))
      × (t.border_routers_seen ≡ u16 (total_borders seen))
      × (t.includes_self ≡ found_self seen)
scanned-distinct rs last error now =
    rw (scanned, discover_cb-last (reset scanning) rs last error now)
      (finish-Adds (scan (reset scanning) (with_last rs last) now)
        (distinct (λ i. false) (with_last rs last)) error now start)
  where
    start :
        Adds
          (reset scanning)
          (scan (reset scanning) (with_last rs last) now)
          (distinct (λ i. false) (with_last rs last))
    start =
        unfold reset in
        scan-Adds (reset scanning) (with_last rs last) now (record {
          status = refl;
          routers = omega arith;
          children = omega arith;
          borders = omega arith;
        })
