-- ===== src/Qrscan/Cycle.antt =====
-- main/qrscan.c: the scanner's state through starts that succeed or fail, and stops.
use cores3_epskc_commissione.Base.{
  ℕ, zero, suc, ◌+◌, ◌*◌, ◌≡◌, refl, sym, ap, subst, ◌∙◌, ◌⊎◌, inl, inr, Bool, true, false, not,
  ◌&&◌, ◌||◌, Option, none, some, if◌then◌else◌, arith,
}
use cores3_epskc_commissione.Qrscan.Camera.{
  Camera, Buffer, Answers, EspErr, teardown, stop, requeue, warm_start, map_buffers, start_decoder,
  set_up_format, set_up, cold_start, start, Step, starts, unreadable, stops, Reach, here, next,
}

-- An open pipeline has its decoder and its three buffers, for frames of this size; a closed one nothing.
abbrev pub Pipeline : ℕ → ℕ → Bool → Camera → Type 0
Pipeline w h true c = (c.quirc ≡ true) × (c.mapped ≡ 3) × (c.width ≡ w) × (c.height ≡ h)
Pipeline w h false c = (c.quirc ≡ false) × (c.mapped ≡ 0) × (c.running ≡ false)

abbrev pub Sized : ℕ → Option ℕ → Type 0
Sized n none = Unit
Sized n (some m) = m ≡ n

-- The pipeline is whole or closed, and the copy for the dump, once there, has the size of a frame.
pub record IsCamera (w h : ℕ) (c : Camera) : Type 0 where
  pub pipeline : Pipeline w h c.opened c
  pub grey : Sized (w * h) c.last_grey

module _ (w h : ℕ) where
  teardown-IsCamera : (c : Camera) → Sized (w * h) c.last_grey → IsCamera w h (teardown c)
  unfolding teardown
  teardown-IsCamera c g = record { pipeline = (refl, refl, refl); grey = g }

  IsCamera-if :
      (b : Bool) (x y : EspErr × Camera)
      → (b ≡ true → IsCamera w h x.1)
      → (b ≡ false → IsCamera w h y.1)
      → IsCamera w h (if b then x else y).1
  IsCamera-if true x y f g = f refl
  IsCamera-if false x y f g = g refl

  stop-IsCamera : (c : Camera) → IsCamera w h c → IsCamera w h (stop c)
  unfolding stop
  stop-IsCamera c i = stopped c.running
    where
      closed : (o : Bool) → Pipeline w h o c → Pipeline w h o (record c { running = false })
      closed true p = p
      closed false (q, m, r) = (q, m, refl)

      stopped : (b : Bool) → IsCamera w h (if b then record c { running = false } else c)
      stopped true = record { pipeline = closed c.opened i.pipeline; grey = i.grey }
      stopped false = i

  warm_start-IsCamera :
      (a : Answers) (c : Camera)
      → c.opened ≡ true
      → IsCamera w h c
      → IsCamera w h (warm_start a c).1
  unfolding warm_start
  warm_start-IsCamera a c o i =
      IsCamera-if (not (requeue a.buffers 3) || not a.streams) _ _ (λ e. teardown-IsCamera c i.grey)
        (λ e. record {
          pipeline =
              subst (λ (b : Bool). Pipeline w h b (record c { running = true })) (sym o)
                (subst (λ (b : Bool). Pipeline w h b c) o i.pipeline);
          grey = i.grey;
        })

  map_buffers-mapped :
      (buffers : ℕ → Buffer) (n : ℕ) (c : Camera)
      → (map_buffers buffers n c).0 ≡ true
      → (map_buffers buffers n c).1.mapped ≡ n + c.mapped
  unfolding map_buffers
  map_buffers-mapped buffers zero c e = omega arith
  map_buffers-mapped buffers (suc n) c e =
      let rest = map_buffers-mapped buffers n (record c { mapped = 1 + c.mapped }) in
      ground (arith, rest)

  map_buffers-same :
      (buffers : ℕ → Buffer) (n : ℕ) (c : Camera)
      → ((map_buffers buffers n c).1.opened ≡ c.opened)
        × ((map_buffers buffers n c).1.width ≡ c.width)
        × ((map_buffers buffers n c).1.height ≡ c.height)
        × ((map_buffers buffers n c).1.last_grey ≡ c.last_grey)
  unfolding map_buffers
  map_buffers-same buffers zero c = (refl, refl, refl, refl)
  map_buffers-same buffers (suc n) c =
      let rest = map_buffers-same buffers n (record c { mapped = 1 + c.mapped }) in
      ground (arith, rest)

  start_decoder-grey :
      (good : Bool) (x y : ℕ) (g : Option ℕ)
      → x ≡ w
      → y ≡ h
      → Sized (w * h) g
      → Sized (w * h) (elim g [ some n ↦ some n | none ↦ if good then some (x * y) else none ])
  start_decoder-grey true x y none e f s = rw (e, f) refl
  start_decoder-grey false x y none e f s = tt
  start_decoder-grey good x y (some n) e f s = s

  start_decoder-IsCamera :
      (a : Answers) (c : Camera)
      → c.opened ≡ true
      → c.mapped ≡ 3
      → c.width ≡ w
      → c.height ≡ h
      → Sized (w * h) c.last_grey
      → IsCamera w h (start_decoder a c).1
  unfolding start_decoder
  start_decoder-IsCamera a c o m x y g =
      IsCamera-if (not a.streams || not a.decoder) _ _ (λ e. teardown-IsCamera c g)
        (λ e. record {
          pipeline = rw o (refl, m, x, y);
          grey = start_decoder-grey a.grey_allocated c.width c.height c.last_grey x y g;
        })

  set_up_format-IsCamera :
      (a : Answers) (c : Camera)
      → c.opened ≡ true
      → c.mapped ≡ 0
      → Sized (w * h) c.last_grey
      → IsCamera w h (set_up_format a (some (w, h)) c).1
  unfolding set_up_format
  set_up_format-IsCamera a c o m g =
      let c' = record c { width = w; height = h } in
      let (o', x, y, g') = map_buffers-same a.buffers 3 c' in
      let grey = subst (Sized (w * h)) (sym g') g in
      IsCamera-if (not a.requested) _ _ (λ e. teardown-IsCamera c' g)
        (λ e.
          IsCamera-if (map_buffers a.buffers 3 c').0 _ _
            (λ k.
              start_decoder-IsCamera a (map_buffers a.buffers 3 c').1 (o' ∙ o)
                (map_buffers-mapped a.buffers 3 c' k ∙ ap (λ n. 3 + n) m) x y grey)
            (λ k. teardown-IsCamera (map_buffers a.buffers 3 c').1 grey))

  set_up-IsCamera :
      (a : Answers) (c : Camera)
      → (a.format ≡ none) ⊎ (a.format ≡ some (w, h))
      → c.opened ≡ true
      → c.mapped ≡ 0
      → Sized (w * h) c.last_grey
      → IsCamera w h (set_up a c).1
  unfolding set_up set_up_format
  set_up-IsCamera a c (inl f) o m g =
      subst (λ (r : Option (ℕ × ℕ)). IsCamera w h (set_up_format a r c).1) (sym f)
        (teardown-IsCamera c g)
  set_up-IsCamera a c (inr f) o m g =
      subst (λ (r : Option (ℕ × ℕ)). IsCamera w h (set_up_format a r c).1) (sym f)
        (set_up_format-IsCamera a c o m g)

  cold_start-IsCamera :
      (a : Answers) (c : Camera)
      → (a.format ≡ none) ⊎ (a.format ≡ some (w, h))
      → c.opened ≡ false
      → IsCamera w h c
      → IsCamera w h (cold_start a c).1
  unfolding cold_start
  cold_start-IsCamera a c f o i =
      let (q, m, r) = subst (λ (b : Bool). Pipeline w h b c) o i.pipeline in
      let c' = record c { video_inited = true } in
      let inited : IsCamera w h c' = record {
        pipeline = subst (λ (b : Bool). Pipeline w h b c') (sym o) (q, m, r);
        grey = i.grey;
      } in
      IsCamera-if (not c.video_inited && not a.camera_started) _ _ (λ e. i)
        (λ e.
          IsCamera-if (not a.opens) _ _ (λ k. inited)
            (λ k. set_up-IsCamera a (record c' { opened = true }) f refl m i.grey))

  start-IsCamera :
      (a : Answers) (c : Camera)
      → (a.format ≡ none) ⊎ (a.format ≡ some (w, h))
      → IsCamera w h c
      → IsCamera w h (start a c).1
  unfolding start
  start-IsCamera a c f i =
      IsCamera-if c.running _ _ (λ e. i)
        (λ e.
          IsCamera-if c.opened _ _ (λ o. warm_start-IsCamera a c o i)
            (λ o. cold_start-IsCamera a c f o i))

  Step-IsCamera : {c d : Camera} → Step w h c d → IsCamera w h c → IsCamera w h d
  Step-IsCamera (starts a c f) i = start-IsCamera a c (inr f) i
  Step-IsCamera (unreadable a c f) i = start-IsCamera a c (inl f) i
  Step-IsCamera (stops c) i = stop-IsCamera c i

-- Through starts and stops in any order, wherever a start fails, on a driver whose frames keep one size:
-- an open pipeline has its decoder, its three buffers and this size, a closed one has no decoder and no
-- buffer and does not run, and the copy for the dump, once allocated, has the size of a frame.
pub Reach-IsCamera : (w h : ℕ) (c d : Camera) → Reach w h c d → IsCamera w h c → IsCamera w h d
Reach-IsCamera w h c d here i = i
Reach-IsCamera w h c d (next r step) i = Step-IsCamera w h step (Reach-IsCamera w h c _ r i)
