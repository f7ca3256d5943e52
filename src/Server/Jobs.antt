-- ===== src/Server/Jobs.antt =====
-- main/otbr_rest.c: which requests run a job on the Thread stack.
use cores3_epskc_commissione.Base.{
  ℕ, ◌*◌, ◌≤◌, ◌<◌, ◌≡◌, ◌↔◌, refl, sym, ap, ◌∙◌, inl, inr, Bool, true, false, Option, none, some,
  List, ◌∷◌, ◌++◌, ℤ, pos, negsuc, leb, ◌==◌, length, All, All-append, ◌≢◌, [], arith, Bool-cases,
  Option-cases,
}
use cores3_epskc_commissione.Rest.Wire.{is_space, has_byte, parse_toggle}
use cores3_epskc_commissione.Rest.Bodies.{Spaces, quotes, word, IsToggle, parse_toggle_iff}
use cores3_epskc_commissione.Rest.Options.{Seen}
use cores3_epskc_commissione.Thread.Share.{KeyState}
use cores3_epskc_commissione.Server.Body.{
  recv_body, join, arrived, NonEmpty, NoNul, recv_body-join, IsEnd, recv_body-cut, recv_body-nul,
  NoNul-has_byte, has_byte-no_NoNul,
}
use cores3_epskc_commissione.Server.Handlers.{
  Method, get, put, post, delete, is_write, Request, bad_request, unread_body, refused, Job,
  set_enabled, share_start, share_stop, Plan, reply, run, read_checked, toggle_plan, h_state,
  key_options, key_plan, between, h_epskc_key, key_start, given,
}

-- The request with these answers to its reads.
abbrev pub request : Method → ℕ → List (Option (List ℕ)) → Request
request method content_len answers = record {
  method = method;
  content_len = content_len;
  answers = answers;
  text_plain = false;
}

pub read_checked-join :
    (method : Method) (ps : List (List ℕ)) (answers : List (Option (List ℕ))) (size : ℕ)
    (use_body : List ℕ → Plan)
    → All NonEmpty ps
    → NoNul (join ps)
    → length (join ps) < size
    → read_checked size (request method (length (join ps)) (arrived ps ++ answers)) use_body
      ≡ use_body (join ps)
unfolding read_checked
read_checked-join method ps answers size use_body h n l =
    let small : leb size (length (join ps)) ≡ false = ground arith in
    simp (read_checked, small, recv_body-join ps answers size h n l)

-- The job that a plan runs.
abbrev pub job_of : Plan → Option Job
job_of (reply r) = none
job_of (run j f r) = some j

toggle_plan_job :
    (job : Bool → Job) (body : List ℕ)
    → 0 < length body
    → job_of (toggle_plan job body)
      ≡ elim (parse_toggle body) [ none ↦ none | some on ↦ some (job on) ]
unfolding toggle_plan
toggle_plan_job job body h =
    let some_bytes : (length body == 0) ≡ false = ground arith in
    elim (Option-cases (parse_toggle body)) [
      | inl e ↦ simp (toggle_plan, some_bytes, e)
      | inr (on, e) ↦ simp (toggle_plan, some_bytes, e)
    ]

planned_job_iff :
    (body : List ℕ) (o : Option Bool) (job : Job)
    → parse_toggle body ≡ o
    → (elim o [ none ↦ none | some on ↦ some (set_enabled on) ] ≡ some job)
      ↔ ((on : Bool) × (job ≡ set_enabled on) × IsToggle on body)
planned_job_iff body none job e = (
  λ f. absurd (none_job f),
  λ (on, f, t). absurd (none_on on (sym e ∙ (parse_toggle_iff body on).1 t)),
)
  where
    none_job : none ≡ some job → ⊥
    none_job f = ground arith

    none_on : (on : Bool) → none ≡ some on → ⊥
    none_on on f = ground arith
planned_job_iff body (some on) job e = (
  λ f. (on, job_inj f, (parse_toggle_iff body on).0 e),
  λ (on', f, t). on_same on' (sym e ∙ (parse_toggle_iff body on').1 t) f,
)
  where
    job_inj : some (set_enabled on) ≡ some job → job ≡ set_enabled on
    job_inj f = cc

    on_same :
        (on' : Bool) → some on ≡ some on' → job ≡ set_enabled on' → some (set_enabled on) ≡ some job
    on_same on' f g = cc

Spaces-NoNul : (s : List ℕ) → Spaces s → NoNul s
Spaces-NoNul [] h = tt
Spaces-NoNul (c ∷ s) (h, hs) = (ne, Spaces-NoNul s hs)
  where
    ne : c ≢ 0
    ne e = unfold is_space in ground arith

nonzero : {c : ℕ} → 0 < c → c ≢ 0
nonzero h e = omega arith

word-NoNul : (on : Bool) → NoNul (word on)
word-NoNul true = NoNul-has_byte (word true) (unfold has_byte in refl)
word-NoNul false = NoNul-has_byte (word false) (unfold has_byte in refl)

quotes-NoNul : (q : Bool) → NoNul (quotes q)
quotes-NoNul true = (nonzero (omega arith), tt)
quotes-NoNul false = tt

-- A toggle has no NUL byte.
IsToggle-NoNul : (on : Bool) (body : List ℕ) → IsToggle on body → NoNul body
IsToggle-NoNul on body (before, q, behind, h, k, e) = rw e (
    All-append (λ b. b ≢ 0) before _ (Spaces-NoNul before h)
      (All-append (λ b. b ≢ 0) (quotes q) _ (quotes-NoNul q)
        (All-append (λ b. b ≢ 0) (word on) _ (word-NoNul on)
          (All-append (λ b. b ≢ 0) (quotes q) _ (quotes-NoNul q) (Spaces-NoNul behind k)))))

read_checked-nul :
    (method : Method) (ps : List (List ℕ)) (answers : List (Option (List ℕ))) (size : ℕ)
    (use_body : List ℕ → Plan)
    → All NonEmpty ps
    → has_byte 0 (length (join ps)) (join ps) ≡ true
    → job_of
        (read_checked size (request method (length (join ps)) (arrived ps ++ answers)) use_body)
      ≡ none
unfolding read_checked
read_checked-nul method ps answers size use_body h n =
    elim (Bool-cases (leb size (length (join ps)))) [
      | inl e ↦ simp (read_checked, e)
      | inr e ↦ simp (read_checked, e, recv_body-nul ps answers size h n)
    ]

-- For a `PUT` or `POST` of /node/state with a body of 1 to 15 bytes of any values, NUL bytes included,
-- that arrives in any pieces, the stack is enabled or disabled exactly when the body is that toggle, and
-- for every other body no job is run.
pub h_state-IsToggle :
    (role : List ℕ) (method : Method) (ps : List (List ℕ)) (answers : List (Option (List ℕ)))
    (job : Job)
    → is_write method ≡ true
    → All NonEmpty ps
    → 0 < length (join ps)
    → length (join ps) < 16
    → (job_of (h_state role (request method (length (join ps)) (arrived ps ++ answers))) ≡ some job)
      ↔ ((on : Bool) × (job ≡ set_enabled on) × IsToggle on (join ps))
unfolding h_state
h_state-IsToggle role method ps answers job w h p l =
    elim (Bool-cases (has_byte 0 (length (join ps)) (join ps))) [
      | inl z ↦
          rw (w, read_checked-nul method ps answers 16 (toggle_plan set_enabled) h z)
            (
              λ f. absurd (none_job f),
              λ (on, f, t). absurd (has_byte-no_NoNul (join ps) z (IsToggle-NoNul on (join ps) t)),
            )
      | inr z ↦
          rw
            (
              w,
              read_checked-join method ps answers 16 (toggle_plan set_enabled) h
                  (NoNul-has_byte (join ps) z) l,
              toggle_plan_job set_enabled (join ps) p,
            )
            (planned_job_iff (join ps) (parse_toggle (join ps)) job refl)
    ]
  where
    none_job : none ≡ some job → ⊥
    none_job f = ground arith

read_checked-job :
    (size : ℕ) (r : Request) (use_body : List ℕ → Plan) (job : Job)
    → job_of (read_checked size r use_body) ≡ some job
    → (r.content_len < size) × ((body : List ℕ) × (job_of (use_body body) ≡ some job))
unfolding read_checked
read_checked-job size r use_body job e = elim (Bool-cases (leb size r.content_len)) [
  | inl f ↦ absurd (none_job (rw f at e))
  | inr f ↦ elim (Option-cases (recv_body r.content_len size r.answers)) [
    | inl g ↦ absurd (none_job (rw (f, g) at e))
    | inr (body, g) ↦ (ground arith, (body, rw (f, g) at e))
  ]
]
  where
    none_job : none ≡ some job → ⊥
    none_job f = ground arith

between-some : (low high : ℕ) (z : ℤ) (n : ℕ) → between low high z ≡ some n → (low ≤ n) × (n ≤ high)
between-some low high (negsuc m) n e = ground arith
between-some low high (pos m) n e = ground arith

key_start-job :
    (port : ℕ) (x y : Option ℕ) (lifetime_ms asked : ℕ)
    → job_of (key_start port x y) ≡ some (share_start lifetime_ms asked)
    → (x ≡ some lifetime_ms) × (y ≡ some asked)
unfolding key_start
key_start-job port none y lifetime_ms asked e = ground arith
key_start-job port (some x) none lifetime_ms asked e = ground arith
key_start-job port (some x) (some y) lifetime_ms asked e = (cc, cc)

key_plan-none :
    (share_minutes port : ℕ) (body : List ℕ)
    → key_options body ≡ none
    → job_of (key_plan share_minutes port body) ≡ none
unfolding key_plan
key_plan-none share_minutes port body f = simp (key_plan, f)

key_plan-some :
    (share_minutes port : ℕ) (body : List ℕ) (seen : Seen)
    → key_options body ≡ some seen
    → key_plan share_minutes port body
      ≡ key_start port
          (between 1 600000 (given seen.lifetime (pos (share_minutes * 60000))))
          (between 0 65535 (given seen.port (pos 0)))
unfolding key_plan
key_plan-some share_minutes port body seen f = simp (key_plan, f)

key_plan-bounds :
    (share_minutes port : ℕ) (body : List ℕ) (lifetime_ms asked : ℕ)
    → job_of (key_plan share_minutes port body) ≡ some (share_start lifetime_ms asked)
    → (1 ≤ lifetime_ms) × (lifetime_ms ≤ 600000) × (asked ≤ 65535)
key_plan-bounds share_minutes port body lifetime_ms asked e =
    elim (Option-cases (key_options body)) [
      | inl f ↦ absurd (none_job (sym (key_plan-none share_minutes port body f) ∙ e))
      | inr (seen, f) ↦
          let l = given seen.lifetime (pos (share_minutes * 60000)) in
          let p = given seen.port (pos 0) in
          let (x, y) =
            key_start-job port (between 1 600000 l) (between 0 65535 p) lifetime_ms asked
              (sym (ap job_of (key_plan-some share_minutes port body seen f)) ∙ e) in
          let (low, high) = between-some 1 600000 l lifetime_ms x in
          (low, high, (between-some 0 65535 p asked y).1)
    ]
  where
    none_job : none ≡ some (share_start lifetime_ms asked) → ⊥
    none_job f = ground arith

h_epskc_key-post :
    (share_minutes : ℕ) (st : KeyState) (port : ℕ) (r : Request)
    → r.method ≡ post
    → h_epskc_key share_minutes st port r ≡ read_checked 96 r (key_plan share_minutes port)
unfolding h_epskc_key
h_epskc_key-post share_minutes st port r f = simp (h_epskc_key, f)

-- A key is asked for only by a `POST` with a declared length below 96 bytes, for a lifetime of 1 to
-- 600,000 ms and a port of 16 bits, so that neither conversion to the types of the stack loses a bit.
pub h_epskc_key-bounds :
    (share_minutes : ℕ) (st : KeyState) (port : ℕ) (r : Request) (lifetime_ms asked : ℕ)
    → job_of (h_epskc_key share_minutes st port r) ≡ some (share_start lifetime_ms asked)
    → (r.method ≡ post)
      × (r.content_len < 96)
      × (1 ≤ lifetime_ms)
      × (lifetime_ms ≤ 600000)
      × (asked ≤ 65535)
unfolding h_epskc_key
h_epskc_key-bounds share_minutes st port r lifetime_ms asked e = of_method (r.method) refl
  where
    other : none ≡ some (share_start lifetime_ms asked) → ⊥
    other f = ground arith

    stop : some share_stop ≡ some (share_start lifetime_ms asked) → ⊥
    stop f = ground arith

    of_method :
        (m : Method)
        → r.method ≡ m
        → (r.method ≡ post)
          × (r.content_len < 96)
          × (1 ≤ lifetime_ms)
          × (lifetime_ms ≤ 600000)
          × (asked ≤ 65535)
    of_method post f =
        let (short, (body, g)) =
          read_checked-job 96 r (key_plan share_minutes port) (share_start lifetime_ms asked)
            (sym (ap job_of (h_epskc_key-post share_minutes st port r f)) ∙ e) in
        let (low, high, bits) = key_plan-bounds share_minutes port body lifetime_ms asked g in
        (f, short, low, high, bits)
    of_method get f = absurd (other (rw f at e))
    of_method put f = absurd (other (rw f at e))
    of_method delete f = absurd (stop (rw f at e))

-- A `POST` for a key whose body fails to arrive whole, by an error or because the connection closes, is
-- refused, and no key is asked for with the default options.
pub h_epskc_key-cut :
    (share_minutes : ℕ) (st : KeyState) (port : ℕ) (ps : List (List ℕ)) (last : Option (List ℕ))
    (answers : List (Option (List ℕ))) (content_len : ℕ)
    → All NonEmpty ps
    → IsEnd last
    → length (join ps) < content_len
    → content_len < 96
    → h_epskc_key share_minutes st port (request post content_len (arrived ps ++ (last ∷ answers)))
      ≡ reply (refused bad_request unread_body)
unfolding h_epskc_key read_checked
h_epskc_key-cut share_minutes st port ps last answers content_len h e l m =
    let small : leb 96 content_len ≡ false = ground arith in
    simp (h_epskc_key, read_checked, small, recv_body-cut ps last answers content_len 96 h e l)
