-- ===== src/Battery/Wakeup.antt =====
-- main/matter_battery.cpp: samples, requests and publications in any order.
use cores3_epskc_commissione.Base.{
  ℕ, suc, ◌≡◌, refl, sym, ap, inl, inr, Bool, true, false, not, ◌&&◌, ◌||◌, Option, none, some,
  ◌==◌, if◌then◌else◌, arith, Bool-cases, ==_iff,
}
use cores3_epskc_commissione.Power.Gauge.{Status}
use cores3_epskc_commissione.Power.Matter.{convert}
use cores3_epskc_commissione.Battery.Publisher.{
  Cached, unsent, holds, differs, due, Accepts, take_value, is_known, update_all, State,
  request_publish, note_power, publish_begin, publish_copy, battery_start,
}

-- The state, whether a sample has been noted since the last copy, and whether ScheduleWork refused the
-- last request.
pub record World : Type 0 where
  pub state : State
  pub fresh : Bool
  pub dropped : Bool

abbrev pub refused : Bool → State → Bool
refused takes s = s.ready && (not s.pending && not takes)

pub data Step : World → World → Type 0 where
  notes :
      (w : World) (ps : Option Status) (good : Bool) (now : ℕ) (takes : Bool)
      → Step w (record {
        state = note_power ps good now takes w.state;
        fresh = true;
        dropped = refused takes w.state;
      })
  watchdog :
      (w : World) (takes : Bool)
      → Step w (record w { state = request_publish takes w.state; dropped = refused takes w.state })
  begins :
      (w : World) (left : ℕ)
      → w.state.scheduled ≡ suc left
      → w.state.copying ≡ false
      → Step w (record w { state = publish_begin left w.state })
  copies :
      (w : World) (a : Accepts) (now : ℕ)
      → w.state.copying ≡ true
      → Step w (record w { state = publish_copy a now w.state; fresh = false })
  enables :
      (w : World) (takes : Bool)
      → Step w (record w {
        state = (battery_start true takes w.state).1;
        dropped = refused takes (record (w.state) { ready = true });
      })

pub data Reach (w : World) : World → Type 0 where
  here : Reach w w
  next : {u v : World} → Reach w u → Step u v → Reach w v

-- A publication is scheduled exactly while one is pending, and never two; and a sample that is not
-- copied yet has one scheduled or about to copy it, once the endpoint is ready and unless ScheduleWork
-- refused the last request.
pub record IsAwake (w : World) : Type 0 where
  pub one : w.state.scheduled ≡ (if w.state.pending then 1 else 0)
  pub awake :
      not w.state.ready || not w.fresh || w.state.pending || w.state.copying || w.dropped ≡ true

Step-IsAwake : {w v : World} → Step w v → IsAwake w → IsAwake v
unfolding note_power request_publish publish_begin publish_copy battery_start
Step-IsAwake (notes w ps good now takes) i = ground arith
Step-IsAwake (watchdog w takes) i = ground arith
Step-IsAwake (begins w left e f) i = ground arith
Step-IsAwake (copies w a now e) i = ground arith
Step-IsAwake (enables w takes) i = ground arith

-- Through samples from any task, the watchdog, the start of the endpoint and publications, in any order
-- and also between the release of `s_pending` and the copy: one publication at most is scheduled, and a
-- sample is never left without one that will copy it, unless the endpoint is not ready or ScheduleWork
-- refused the last request.
pub Reach-IsAwake : (w v : World) → Reach w v → IsAwake w → IsAwake v
Reach-IsAwake w v here i = i
Reach-IsAwake w v (next r s) i = Step-IsAwake s (Reach-IsAwake w _ r i)

take_value-holds : (v : Option ℕ) (c : Cached) → take_value true v c ≡ holds v
unfolding take_value differs
take_value-holds v unsent = refl
take_value-holds none (holds none) = refl
take_value-holds none (holds (some b)) = refl
take_value-holds (some a) (holds none) = refl
take_value-holds (some a) (holds (some b)) = elim (Bool-cases (a == b)) [
  | inl e ↦ rw e (ap (λ n. holds (some n)) (sym ((==_iff a b).0 e)))
  | inr e ↦ rw e refl
]

and_true : (b : Bool) (x y : Cached) → (if b && true then x else y) ≡ (if b then x else y)
and_true true x y = refl
and_true false x y = refl

-- A publication whose updates all succeed leaves the percentage, the status and the charge state of the
-- newest sample shown, and its charge level if it has one, the level before it if not; the voltage is
-- that of the sample unless none is due.
pub publish_copy-convert :
    (a : Accepts) (now : ℕ) (s : State)
    → a.percent_half ≡ true
    → a.millivolts ≡ true
    → a.status ≡ true
    → a.charge ≡ true
    → a.level ≡ true
    → ((publish_copy a now s).caches.percent_half ≡ holds (convert s.sample now).percent_half)
      × ((publish_copy a now s).caches.status ≡ holds (some (convert s.sample now).status))
      × ((publish_copy a now s).caches.charge ≡ holds (some (convert s.sample now).charge))
      × ((publish_copy a now s).caches.level ≡ (
          if is_known (convert s.sample now).level
          then holds (convert s.sample now).level
          else s.caches.level))
      × ((publish_copy a now s).caches.millivolts ≡ (
          if due s.caches.millivolts (convert s.sample now).millivolts s.caches.voltage_at now
          then holds (convert s.sample now).millivolts
          else s.caches.millivolts))
unfolding publish_copy update_all
publish_copy-convert a now s p m t c l =
    let v = convert s.sample now in
    rw
      (
        p,
        m,
        t,
        c,
        l,
        take_value-holds v.percent_half s.caches.percent_half,
        take_value-holds (some v.status) s.caches.status,
        take_value-holds (some v.charge) s.caches.charge,
        take_value-holds v.level s.caches.level,
      )
      (
        refl,
        refl,
        refl,
        refl,
        and_true (due s.caches.millivolts v.millivolts s.caches.voltage_at now) (holds v.millivolts)
            s.caches.millivolts,
      )
