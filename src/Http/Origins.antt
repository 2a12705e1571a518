-- ===== src/Http/Origins.antt =====
-- What the CSRF check of src/http/middleware.cpp lets through.
use project_tracker.Base.{
  ◌≡◌, ◌≢◌, refl, not, ◌&&◌, ◌||◌, ◌⊎◌, inl, inr, ◌↔◌, true, false, List, [], ◌∷◌, arith, any,
  is_empty, Bytes, codes, if◌then◌else◌, Bool-cases,
}
use project_tracker.Text.{found_at_start}
use project_tracker.Text.Find.{
  IsPart, Begins, contains→IsPart, contains_of_part, found_at_start→Begins,
  found_at_start_of_Begins,
}
use project_tracker.Http.{
  Request, Method, get, head, options, post, put, patch, delete, is_write, is_origin_ok,
  needs_origin, is_csrf_blocked,
}

-- One of the texts is a prefix of the URL.
abbrev pub IsBegun : Bytes → List Bytes → Type 0
IsBegun url [] = ⊥
IsBegun url (o ∷ os) = Begins url o ⊎ IsBegun url os

any→IsBegun : (url : Bytes) (os : List Bytes) → any (found_at_start url) os ≡ true → IsBegun url os
any→IsBegun url [] h = absurd cc
any→IsBegun url (o ∷ os) h = elim (Bool-cases (found_at_start url o)) [
  | inl e ↦ inl (found_at_start→Begins url o e)
  | inr e ↦ inr (any→IsBegun url os (ground arith))
]

any_of_begun : (url : Bytes) (os : List Bytes) → IsBegun url os → any (found_at_start url) os ≡ true
any_of_begun url [] b = elim b [ ]
any_of_begun url (o ∷ os) (inl b) = ground (arith, found_at_start_of_Begins url o b)
any_of_begun url (o ∷ os) (inr b) = ground (arith, any_of_begun url os b)

-- The origin of a request, or else its referer.
abbrev pub check_url : Request → Bytes
check_url req =
    if is_empty (req.header (codes "Origin"))
    then req.header (codes "Referer")
    else req.header (codes "Origin")

-- The URL begins with a configured origin, or the name of the host stands somewhere in it.
abbrev pub IsFromHere : List Bytes → Request → Type 0
IsFromHere origins req =
    IsBegun (check_url req) origins
    ⊎ ((is_empty (req.header (codes "Host")) ≡ false)
        × IsPart (req.header (codes "Host")) (check_url req))

is_origin_ok→IsFromHere :
    (origins : List Bytes) (req : Request)
    → is_origin_ok origins req ≡ true
    → IsFromHere origins req
unfolding is_origin_ok
is_origin_ok→IsFromHere origins req h =
    elim (Bool-cases (any (found_at_start (check_url req)) origins)) [
      | inl e ↦ inl (any→IsBegun _ origins e)
      | inr e ↦ inr (ground arith, contains→IsPart _ _ (ground arith))
    ]

is_origin_ok_of_here :
    (origins : List Bytes) (req : Request)
    → IsFromHere origins req
    → is_origin_ok origins req ≡ true
unfolding is_origin_ok
is_origin_ok_of_here origins req (inl b) = ground (arith, any_of_begun (check_url req) origins b)
is_origin_ok_of_here origins req (inr (n, p)) =
    ground (arith, contains_of_part (check_url req) (req.header (codes "Host")) p)

-- A method that only reads.
abbrev pub IsReading : Method → Type 0
IsReading m = (m ≡ get) ⊎ (m ≡ head) ⊎ (m ≡ options)

not_write→IsReading : (m : Method) → is_write m ≡ false → IsReading m
unfolding is_write
not_write→IsReading get h = inl refl
not_write→IsReading head h = inr (inl refl)
not_write→IsReading options h = inr (inr refl)
not_write→IsReading post h = absurd cc
not_write→IsReading put h = absurd cc
not_write→IsReading patch h = absurd cc
not_write→IsReading delete h = absurd cc

not_write_of_reading : (m : Method) → IsReading m → is_write m ≡ false
unfolding is_write
not_write_of_reading m (inl e) = rw e refl
not_write_of_reading m (inr (inl e)) = rw e refl
not_write_of_reading m (inr (inr e)) = rw e refl

-- A request that no browser sends: it has an API key, or neither origin nor referer.
abbrev pub IsNoBrowser : Request → Type 0
IsNoBrowser req =
    (req.header (codes "X-API-Key") ≢ [])
    ⊎ ((req.header (codes "Origin") ≡ []) × (req.header (codes "Referer") ≡ []))

no_need-cases :
    (key origin referer : Bytes)
    → (is_empty key && (not (is_empty origin) || not (is_empty referer))) ≡ false
    → (key ≢ []) ⊎ ((origin ≡ []) × (referer ≡ []))
no_need-cases [] [] [] h = inr (refl, refl)
no_need-cases [] [] (c ∷ s) h = absurd cc
no_need-cases [] (c ∷ s) referer h = absurd cc
no_need-cases (c ∷ s) origin referer h = inl (λ e. cc)

no_need_of_cases :
    (key origin referer : Bytes)
    → (key ≢ []) ⊎ ((origin ≡ []) × (referer ≡ []))
    → (is_empty key && (not (is_empty origin) || not (is_empty referer))) ≡ false
no_need_of_cases [] origin referer (inl n) = absurd (n refl)
no_need_of_cases (c ∷ s) origin referer h = refl
no_need_of_cases [] origin referer (inr (e, k)) = rw (e, k) refl

no_need→IsNoBrowser : (req : Request) → needs_origin req ≡ false → IsNoBrowser req
unfolding needs_origin
no_need→IsNoBrowser req h = no_need-cases _ _ _ h

no_need_of_no_browser : (req : Request) → IsNoBrowser req → needs_origin req ≡ false
unfolding needs_origin
no_need_of_no_browser req h = no_need_of_cases _ _ _ h

-- The CSRF check lets exactly these through: a GET, HEAD or OPTIONS request; one with an API key
-- that is not empty, or with neither origin nor referer; and one whose origin, or referer where
-- there is no origin, begins with a configured origin, whatever comes behind it, or contains the
-- name of the host, which is not empty, anywhere.
pub is_csrf_blocked_iff :
    (origins : List Bytes) (req : Request)
    → (is_csrf_blocked origins req ≡ false)
      ↔ (IsReading req.method ⊎ IsNoBrowser req ⊎ IsFromHere origins req)
unfolding is_csrf_blocked
is_csrf_blocked_iff origins req = (
  λ h. elim (Bool-cases (is_write req.method)) [
    | inr e ↦ inl (not_write→IsReading req.method e)
    | inl w ↦ elim (Bool-cases (needs_origin req)) [
      | inr e ↦ inr (inl (no_need→IsNoBrowser req e))
      | inl n ↦ inr (inr (is_origin_ok→IsFromHere origins req (ground arith)))
    ]
  ],
  λ h. elim h [
    | inl e ↦ ground (arith, not_write_of_reading req.method e)
    | inr (inl e) ↦ ground (arith, no_need_of_no_browser req e)
    | inr (inr e) ↦ ground (arith, is_origin_ok_of_here origins req e)
  ],
)
