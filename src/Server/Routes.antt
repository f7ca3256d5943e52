-- ===== src/Server/Routes.antt =====
-- main/otbr_rest.c: the routes that exist only while a feature is on.
use cores3_epskc_commissione.Base.{
  ℕ, ◌≡◌, refl, ◌∙◌, inl, inr, Bool, true, false, not, ◌&&◌, ◌||◌, List, [], ◌∷◌, ◌++◌, ◌==◌,
  if◌then◌else◌, All, arith, Bool-cases,
}

-- The answers of `httpd_register_uri_handler`.
pub data Answer : Type 0 where
  accepted exists refused : Answer

-- The calls of the HTTP server, with a route's number.
pub data Call : Type 0 where
  register : (uri : ℕ) (answer : Answer) → Call
  unregister : (uri : ℕ) → Call

abbrev pub is_refused : Answer → Bool
is_refused accepted = false
is_refused exists = false
is_refused refused = true

-- The loop of `apply_routes` when switching on, and whether no route is refused.
unfoldable pub register_all : (ℕ → Answer) → List ℕ → List Call × Bool
register_all answer [] = ([], true)
register_all answer (uri ∷ uris) =
    let (calls, good) = register_all answer uris in
    (register uri (answer uri) ∷ calls, not (is_refused (answer uri)) && good)

abbrev pub unregister_all : List ℕ → List Call
unregister_all [] = []
unregister_all (uri ∷ uris) = unregister uri ∷ unregister_all uris

-- `apply_routes` on a set with these routes: the calls, and whether it is registered then.
unfoldable pub apply_routes : Bool → (ℕ → Answer) → List ℕ → Bool → Bool → List Call × Bool
unfolding register_all
apply_routes server answer uris on registered =
    if not server
    then ([], registered)
    else if (on && registered) || (not on && not registered)
    then ([], registered)
    else if not on
    then (unregister_all uris, false)
    else let (calls, good) = register_all answer uris in
      if good then (calls, true) else (calls ++ unregister_all uris, false)

-- The routes that the server has after a list of calls; a route that exists stays.
abbrev pub replay : List Call → (ℕ → Bool) → ℕ → Bool
replay [] served = served
replay (register uri answer ∷ calls) served =
    replay calls (λ v. ((v == uri) && not (is_refused answer)) || served v)
replay (unregister uri ∷ calls) served = replay calls (λ v. not (v == uri) && served v)

-- The server has all of the routes, or none.
abbrev pub Served : List ℕ → (ℕ → Bool) → Bool → Type 0
Served uris served b = All (λ u. served u ≡ b) uris

==_self : (n : ℕ) → (n == n) ≡ true
==_self n = ground arith

replay-append :
    (xs ys : List Call) (served : ℕ → Bool) (u : ℕ)
    → replay (xs ++ ys) served u ≡ replay ys (replay xs served) u
replay-append [] ys served u = refl
replay-append (register uri a ∷ xs) ys served u =
    replay-append xs ys (λ v. ((v == uri) && not (is_refused a)) || served v) u
replay-append (unregister uri ∷ xs) ys served u =
    replay-append xs ys (λ v. not (v == uri) && served v) u

register_all-keeps :
    (answer : ℕ → Answer) (uris : List ℕ) (served : ℕ → Bool) (u : ℕ)
    → served u ≡ true
    → replay (register_all answer uris).0 served u ≡ true
unfolding register_all
register_all-keeps answer [] served u h = h
register_all-keeps answer (uri ∷ uris) served u h =
    register_all-keeps answer uris (λ v. ((v == uri) && not (is_refused (answer uri))) || served v)
      u (ground arith)

register_all-Served :
    (answer : ℕ → Answer) (uris : List ℕ) (served : ℕ → Bool)
    → (register_all answer uris).1 ≡ true
    → Served uris (replay (register_all answer uris).0 served) true
unfolding register_all
register_all-Served answer [] served e = tt
register_all-Served answer (uri ∷ uris) served e =
    let more = λ (v : ℕ). ((v == uri) && not (is_refused (answer uri))) || served v in
    (
      register_all-keeps answer uris more uri (ground (arith, ==_self uri)),
      register_all-Served answer uris more (ground arith),
    )

unregister_all-keeps :
    (uris : List ℕ) (served : ℕ → Bool) (u : ℕ)
    → served u ≡ false
    → replay (unregister_all uris) served u ≡ false
unregister_all-keeps [] served u h = h
unregister_all-keeps (uri ∷ uris) served u h =
    unregister_all-keeps uris (λ v. not (v == uri) && served v) u (ground arith)

unregister_all-Served :
    (uris : List ℕ) (served : ℕ → Bool) → Served uris (replay (unregister_all uris) served) false
unregister_all-Served [] served = tt
unregister_all-Served (uri ∷ uris) served =
    let gone = λ (v : ℕ). not (v == uri) && served v in
    (
      unregister_all-keeps uris gone uri (ground (arith, ==_self uri)),
      unregister_all-Served uris gone,
    )

Served-same :
    (uris : List ℕ) (f g : ℕ → Bool) (b : Bool)
    → ((u : ℕ) → f u ≡ g u)
    → Served uris g b
    → Served uris f b
Served-same [] f g b same h = tt
Served-same (uri ∷ uris) f g b same (h, hs) = (same uri ∙ h, Served-same uris f g b same hs)

-- Whatever the HTTP server answers, it has either all routes of a feature or none of them after
-- `apply_routes`, as the flag of the set says, if it was so before.
pub apply_routes-Served :
    (server : Bool) (answer : ℕ → Answer) (uris : List ℕ) (on registered : Bool) (served : ℕ → Bool)
    → Served uris served registered
    → Served uris
        (replay (apply_routes server answer uris on registered).0 served)
        (apply_routes server answer uris on registered).1
unfolding apply_routes
apply_routes-Served false answer uris on registered served h = h
apply_routes-Served true answer uris true true served h = h
apply_routes-Served true answer uris false false served h = h
apply_routes-Served true answer uris false true served h = unregister_all-Served uris served
apply_routes-Served true answer uris true false served h =
    elim (Bool-cases (register_all answer uris).1) [
      | inl e ↦ rw e (register_all-Served answer uris served e)
      | inr e ↦ rw e (
          Served-same uris _ _ false
            (replay-append (register_all answer uris).0 (unregister_all uris) served)
            (unregister_all-Served uris (replay (register_all answer uris).0 served)))
    ]
