-- ===== src/Logs/Mixed.antt =====
-- `JoinPartials` runs over the logs of all services at once: what that does to a log with a partial end.
use nix_compose.Prelude.{
  String, Option, some, List, [], ◌∷◌, ◌++◌, ◌≡◌, refl, sym, ◌∙◌, ap, Bool, true, false, All,
  All-append,
}
use mathlib.Core.List.{append_assoc, append-nil}
use nix_compose.Prelude.Text.{◌<>◌}
use nix_compose.Logs.Join.{IsFull}
use nix_compose.Logs.{
  LogEntry, Joining, collect_entries, gather, of_service, sort_entries, read_or_skip, joined,
  join_case, join_step, join_loop, join_end, join_partials, no_joining,
}

join_case-full :
    (partial i : Bool) (e : LogEntry) (s : Joining)
    → partial ≡ false
    → i ≡ false
    → join_case partial i e s ≡ record s { result = s.result ++ e ∷ [] }
unfolding join_case
join_case-full false false e s h k = refl
join_case-full true i e s h k = cc
join_case-full false true e s h k = cc

join_case-first :
    (partial i : Bool) (e : LogEntry) (s : Joining)
    → partial ≡ true
    → i ≡ false
    → join_case partial i e s ≡ record s { first = e; buf = e.message; in_partial = true }
unfolding join_case
join_case-first true false e s h k = refl
join_case-first false i e s h k = cc
join_case-first true true e s h k = cc

join_case-close :
    (partial : Bool) (e : LogEntry) (s : Joining)
    → partial ≡ false
    → join_case partial true e s ≡ record s {
      buf = s.buf <> e.message;
      result = s.result ++ joined s.first (s.buf <> e.message) false ∷ [];
      in_partial = false;
    }
unfolding join_case
join_case-close false e s h = refl
join_case-close true e s h = cc

-- Full entries that meet no partial one are taken over.
join_loop-full :
    (xs rest : List LogEntry) (s : Joining)
    → All IsFull xs
    → s.in_partial ≡ false
    → join_loop (xs ++ rest) s ≡ join_loop rest (record s { result = s.result ++ xs })
unfolding join_loop join_step
join_loop-full [] rest s h k =
    ap (λ l. join_loop rest (record s { result = l })) (sym (append-nil s.result))
join_loop-full (x ∷ xs) rest s h k =
    ap (join_loop (xs ++ rest)) (join_case-full x.is_partial s.in_partial x s h.0 k)
    ∙ (join_loop-full xs rest (record s { result = s.result ++ x ∷ [] }) h.1 k
        ∙ ap (λ l. join_loop rest (record s { result = l })) (append_assoc s.result (x ∷ []) xs))

-- The partial entry `p` with the full entry `f` behind it.
abbrev pub merged : LogEntry → LogEntry → LogEntry
merged p f = record p { message = p.message <> f.message; is_partial = false }

-- The loop behind `xs`, `p` and `f`.
abbrev closed : List LogEntry → LogEntry → LogEntry → Joining
closed xs p f = record {
  result = xs ++ merged p f ∷ [];
  buf = p.message <> f.message;
  first = p;
  in_partial = false;
}

join_loop-closed :
    (xs ys : List LogEntry) (p f : LogEntry)
    → All IsFull xs
    → p.is_partial ≡ true
    → f.is_partial ≡ false
    → join_loop (xs ++ p ∷ f ∷ ys) no_joining ≡ join_loop ys (closed xs p f)
unfolding join_loop join_step
join_loop-closed xs ys p f hx hp hf =
    let before = record no_joining { result = xs } in
    let open_entry : Joining = record before { first = p; buf = p.message; in_partial = true } in
    join_loop-full xs (p ∷ f ∷ ys) no_joining hx refl
    ∙ (ap (join_loop (f ∷ ys)) (join_case-first p.is_partial false p before hp refl)
        ∙ ap (join_loop ys) (join_case-close f.is_partial f open_entry hf))

join_partials-merged :
    (xs ys : List LogEntry) (p f : LogEntry)
    → All IsFull xs
    → All IsFull ys
    → p.is_partial ≡ true
    → f.is_partial ≡ false
    → join_partials (xs ++ p ∷ f ∷ ys) ≡ xs ++ merged p f ∷ ys
unfolding join_partials join_end join_loop
join_partials-merged xs ys p f hx hy hp hf =
    ap join_end (
      join_loop-closed xs ys p f hx hp hf
      ∙ (ap (λ l. join_loop l (closed xs p f)) (sym (append-nil ys))
          ∙ join_loop-full ys [] (closed xs p f) hy refl))
    ∙ append_assoc xs (merged p f ∷ []) ys

All-of_service :
    (svc : String) (es : List LogEntry) → All IsFull es → All IsFull (of_service svc es)
All-of_service svc [] h = tt
All-of_service svc (e ∷ es) h = (h.0, All-of_service svc es h.1)

of_service-append :
    (svc : String) (xs ys : List LogEntry)
    → of_service svc (xs ++ ys) ≡ of_service svc xs ++ of_service svc ys
of_service-append svc [] ys = refl
of_service-append svc (x ∷ xs) ys =
    ap (λ l. record x { service = svc } ∷ l) (of_service-append svc xs ys)

gather-append :
    (read_log : String → Option (List LogEntry)) (xs ys : List String)
    → gather read_log (xs ++ ys) ≡ gather read_log xs ++ gather read_log ys
unfolding gather
gather-append read_log [] ys = refl
gather-append read_log (x ∷ xs) ys =
    let here = of_service x (read_or_skip (read_log x)) in
    ap (λ l. here ++ l) (gather-append read_log xs ys)
    ∙ sym (append_assoc here (gather read_log xs) (gather read_log ys))

gather-mixed :
    (read_log : String → Option (List LogEntry)) (before after : List String) (a b : String)
    (xs ys : List LogEntry) (p f : LogEntry)
    → read_log a ≡ some (xs ++ p ∷ [])
    → read_log b ≡ some (f ∷ ys)
    → gather read_log (before ++ a ∷ b ∷ after)
      ≡ (gather read_log before ++ of_service a xs)
        ++ record p { service = a }
          ∷ record f { service = b }
          ∷ (of_service b ys ++ gather read_log after)
unfolding gather
gather-mixed read_log before after a b xs ys p f ra rb =
    let behind = record f { service = b } ∷ (of_service b ys ++ gather read_log after) in
    gather-append read_log before (a ∷ b ∷ after)
    ∙ (rw (ra, rb)
        (rw (of_service-append a xs (p ∷ [])) (
          rw (append_assoc (of_service a xs) (record p { service = a } ∷ []) behind) (
            sym (
              append_assoc (gather read_log before) (of_service a xs)
                (record p { service = a } ∷ behind))))))

-- Let the log of `a` end in a partial entry, that of the next service `b` start with a full one, and
-- all other entries of all services be full. What is collected is then the entries of all logs, put
-- in order of time, except that these two are one entry of the service `a`, with the time of the first
-- and the text of both.
pub collect_entries-mixed :
    (read_log : String → Option (List LogEntry)) (before after : List String) (a b : String)
    (xs ys : List LogEntry) (p f : LogEntry)
    → All IsFull (gather read_log before)
    → All IsFull xs
    → All IsFull ys
    → All IsFull (gather read_log after)
    → p.is_partial ≡ true
    → f.is_partial ≡ false
    → read_log a ≡ some (xs ++ p ∷ [])
    → read_log b ≡ some (f ∷ ys)
    → collect_entries read_log (before ++ a ∷ b ∷ after)
      ≡ sort_entries (
          (gather read_log before ++ of_service a xs)
          ++ merged (record p { service = a }) f ∷ (of_service b ys ++ gather read_log after))
unfolding collect_entries
collect_entries-mixed read_log before after a b xs ys p f hb hx hy ha hp hf ra rb =
    ap (λ l. sort_entries (join_partials l))
      (gather-mixed read_log before after a b xs ys p f ra rb)
    ∙ ap sort_entries (
        join_partials-merged (gather read_log before ++ of_service a xs)
          (of_service b ys ++ gather read_log after) (record p { service = a })
          (record f { service = b })
          (All-append IsFull (gather read_log before) (of_service a xs) hb (All-of_service a xs hx))
          (All-append IsFull (of_service b ys) (gather read_log after) (All-of_service b ys hy) ha)
          hp hf)
