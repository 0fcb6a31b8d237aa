-- ===== src/Logs/Join.antt =====
-- `JoinPartials`: no text is lost, and only the last entry can be partial.
use nix_compose.Prelude.{
  String, List, [], ◌∷◌, ◌++◌, ◌≡◌, refl, sym, ◌∙◌, ap, Bool, true, false, inl, inr, Bool-cases,
  if◌then◌else◌, All, All-append,
}
use nix_compose.Prelude.Text.{◌<>◌, <>-nil, nil-<>, <>-assoc}
use nix_compose.Logs.{
  LogEntry, Joining, join_case, join_step, join_loop, join_end, joined, join_partials, no_joining,
}

-- The messages put together.
abbrev pub text_of : List LogEntry → String
text_of [] = ""
text_of (e ∷ rest) = e.message <> text_of rest

abbrev pub IsFull : LogEntry → Type 0
IsFull e = e.is_partial ≡ false

-- Full entries, with at most one partial entry behind them.
abbrev pub OnlyLastPartial : List LogEntry → Type 0
OnlyLastPartial [] = Unit
OnlyLastPartial (e ∷ []) = Unit
OnlyLastPartial (e ∷ x ∷ rest) = IsFull e × OnlyLastPartial (x ∷ rest)

text_of-append : (xs ys : List LogEntry) → text_of (xs ++ ys) ≡ text_of xs <> text_of ys
text_of-append [] ys = sym (nil-<> (text_of ys))
text_of-append (x ∷ xs) ys =
    ap (λ t. x.message <> t) (text_of-append xs ys) ∙ sym (<>-assoc x.message _ _)

-- The text that the loop holds.
abbrev held : Joining → String
held s = text_of s.result <> (if s.in_partial then s.buf else "")

text_of-snoc :
    (xs : List LogEntry) (e : LogEntry) → text_of (xs ++ e ∷ []) ≡ text_of xs <> e.message
text_of-snoc xs e = text_of-append xs (e ∷ []) ∙ ap (λ t. text_of xs <> t) (<>-nil e.message)

held-join_case :
    (partial i : Bool) (e : LogEntry) (s : Joining)
    → s.in_partial ≡ i
    → held (join_case partial i e s) ≡ held s <> e.message
unfolding join_case
held-join_case true true e s h = rw h (sym (<>-assoc (text_of s.result) s.buf e.message))
held-join_case true false e s h = rw (h, <>-nil (text_of s.result)) refl
held-join_case false true e s h = rw h (
    <>-nil _
    ∙ (text_of-snoc s.result (joined s.first (s.buf <> e.message) false)
        ∙ sym (<>-assoc (text_of s.result) s.buf e.message)))
held-join_case false false e s h = rw h (
    <>-nil _
    ∙ (text_of-snoc s.result e ∙ ap (λ t. t <> e.message) (sym (<>-nil (text_of s.result)))))

held-join_step : (e : LogEntry) (s : Joining) → held (join_step e s) ≡ held s <> e.message
unfolding join_step
held-join_step e s = held-join_case e.is_partial s.in_partial e s refl

held-join_loop : (es : List LogEntry) (s : Joining) → held (join_loop es s) ≡ held s <> text_of es
unfolding join_loop
held-join_loop [] s = sym (<>-nil (held s))
held-join_loop (e ∷ rest) s =
    held-join_loop rest (join_step e s)
    ∙ (ap (λ t. t <> text_of rest) (held-join_step e s)
        ∙ <>-assoc (held s) e.message (text_of rest))

text_of-join_end : (s : Joining) → text_of (join_end s) ≡ held s
unfolding join_end
text_of-join_end s = elim (Bool-cases s.in_partial) [
  | inl i ↦ rw i (text_of-snoc s.result (joined s.first s.buf s.first.is_partial))
  | inr n ↦ rw n (sym (<>-nil (text_of s.result)))
]

-- `JoinPartials` keeps all text, in its order.
pub text_of-join_partials : (es : List LogEntry) → text_of (join_partials es) ≡ text_of es
unfolding join_partials
text_of-join_partials es =
    text_of-join_end (join_loop es no_joining)
    ∙ (held-join_loop es no_joining ∙ (rw (nil-<> "") (nil-<> (text_of es))))

OnlyLastPartial-snoc :
    (xs : List LogEntry) (e : LogEntry) → All IsFull xs → OnlyLastPartial (xs ++ e ∷ [])
OnlyLastPartial-snoc [] e h = tt
OnlyLastPartial-snoc (x ∷ []) e h = (h.0, tt)
OnlyLastPartial-snoc (x ∷ y ∷ rest) e h = (h.0, OnlyLastPartial-snoc (y ∷ rest) e h.1)

OnlyLastPartial-full : (xs : List LogEntry) → All IsFull xs → OnlyLastPartial xs
OnlyLastPartial-full [] h = tt
OnlyLastPartial-full (x ∷ []) h = tt
OnlyLastPartial-full (x ∷ y ∷ rest) h = (h.0, OnlyLastPartial-full (y ∷ rest) h.1)

join_case-IsFull :
    (partial i : Bool) (e : LogEntry) (s : Joining)
    → e.is_partial ≡ partial
    → All IsFull s.result
    → All IsFull (join_case partial i e s).result
unfolding join_case
join_case-IsFull true true e s p h = h
join_case-IsFull true false e s p h = h
join_case-IsFull false true e s p h = All-append IsFull s.result _ h (refl, tt)
join_case-IsFull false false e s p h = All-append IsFull s.result (e ∷ []) h (p, tt)

join_step-IsFull :
    (e : LogEntry) (s : Joining) → All IsFull s.result → All IsFull (join_step e s).result
unfolding join_step
join_step-IsFull e s h = join_case-IsFull e.is_partial s.in_partial e s refl h

join_loop-IsFull :
    (es : List LogEntry) (s : Joining) → All IsFull s.result → All IsFull (join_loop es s).result
unfolding join_loop
join_loop-IsFull [] s h = h
join_loop-IsFull (e ∷ rest) s h = join_loop-IsFull rest (join_step e s) (join_step-IsFull e s h)

-- Behind `JoinPartials` no entry but the last is partial.
pub join_partials-OnlyLastPartial : (es : List LogEntry) → OnlyLastPartial (join_partials es)
unfolding join_partials join_end
join_partials-OnlyLastPartial es =
    let s = join_loop es no_joining in
    let full = join_loop-IsFull es no_joining tt in
    elim (Bool-cases s.in_partial) [
      | inl i ↦ rw i (OnlyLastPartial-snoc s.result _ full)
      | inr n ↦ rw n (OnlyLastPartial-full s.result full)
    ]
