-- ===== src/Managers/ErrorQueues.antt =====
-- src/managers/error_queues.cpp. A channel hands out its messages in the order in which they came.
use globed.Common.{
  ℕ, zero, suc, ◌≤◌, ◌≡◌, sym, ap, ◌∙◌, Bool, List, [], ◌∷◌, ◌++◌, if◌then◌else◌, arith, length,
  append-nil, append_assoc,
}

pub record ErrorQueues : Type 0 where
  pub warns : List (List ℕ)
  pub errors : List (List ℕ)
  pub successes : List (List ℕ)
  pub notices : List (List ℕ)

unfoldable warn : List ℕ → ErrorQueues → ErrorQueues
warn t q = record q { warns = q.warns ++ t ∷ [] }

unfoldable error : List ℕ → ErrorQueues → ErrorQueues
error t q = record q { errors = q.errors ++ t ∷ [] }

unfoldable success : List ℕ → ErrorQueues → ErrorQueues
success t q = record q { successes = q.successes ++ t ∷ [] }

unfoldable notice : List ℕ → ErrorQueues → ErrorQueues
notice t q = record q { notices = q.notices ++ t ∷ [] }

-- `debugWarn`, in a build with or without `GLOBED_DEBUG`.
unfoldable debug_warn : Bool → List ℕ → ErrorQueues → ErrorQueues
unfolding warn
debug_warn debug t q = if debug then warn t q else q

-- The loop of `tryPop` on fuel: what it pushes to `out`, and what is left.
unfoldable drain : ℕ → List (List ℕ) → List (List ℕ) → List (List ℕ) × List (List ℕ)
drain zero out q = (out, q)
drain (suc fuel) out [] = (out, [])
drain (suc fuel) out (t ∷ q) = drain fuel (out ++ t ∷ []) q

unfoldable get_warnings : ErrorQueues → List (List ℕ) × ErrorQueues
unfolding drain
get_warnings q =
    let (out, rest) = drain (length q.warns) [] q.warns in (out, record q { warns = rest })

unfoldable get_errors : ErrorQueues → List (List ℕ) × ErrorQueues
unfolding drain
get_errors q =
    let (out, rest) = drain (length q.errors) [] q.errors in (out, record q { errors = rest })

unfoldable get_successes : ErrorQueues → List (List ℕ) × ErrorQueues
unfolding drain
get_successes q =
    let (out, rest) = drain (length q.successes) [] q.successes in
    (out, record q { successes = rest })

unfoldable get_notices : ErrorQueues → List (List ℕ) × ErrorQueues
unfolding drain
get_notices q =
    let (out, rest) = drain (length q.notices) [] q.notices in (out, record q { notices = rest })

-- One round for each message is enough: all come out, in their order, and none is left.
drain_lem : (fuel : ℕ) (out q : List (List ℕ)) → length q ≤ fuel → drain fuel out q ≡ (out ++ q, [])
unfolding drain
drain_lem zero out [] h = ap (λ xs. (xs, [])) (sym (append-nil out))
drain_lem zero out (t ∷ q) h = absurd (omega arith)
drain_lem (suc fuel) out [] h = ap (λ xs. (xs, [])) (sym (append-nil out))
drain_lem (suc fuel) out (t ∷ q) h =
    drain_lem fuel (out ++ t ∷ []) q (omega arith)
    ∙ ap (λ xs. (xs, [])) (append_assoc out (t ∷ []) q)
