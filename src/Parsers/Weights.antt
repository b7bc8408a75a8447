-- ===== src/Parsers/Weights.antt =====
-- Weighing calls, pending and finished. A weight is any function of the name and the input size, so
-- an equation between weights for every weight says that two collections hold the same calls.
use tool_benchmarks.Base.{ℕ, ◌+◌, ◌≡◌, refl, String, Option, none, some, List, [], ◌∷◌, ◌++◌, arith}
use tool_benchmarks.Base.{sum_by, sum_by-append, string_eq}
use tool_benchmarks.Base.Dict.{
  Dict, lookup, insert, erase, lookup-insert, lookup-erase-none, NodupKeys,
}
use tool_benchmarks.Json.{Fields}
use tool_benchmarks.Transcript.{ToolCall}
use tool_benchmarks.Parsers.Pending.{Origin, PendingCall, Finish, finish, drain_pending}
use tool_benchmarks.Parsers.Join.{Joined, pop_call, join_id, join_blocks, result_id, block_finish}

abbrev pub Weight : Type 0
Weight = String → ℕ → ℕ

-- No key of the first dict is in the second.
abbrev pub Absent : Dict String PendingCall → Dict String PendingCall → Type 0
Absent [] d = Unit
Absent ((id, _) ∷ ids) d = (lookup id d ≡ none) × Absent ids d

-- `pending[id] = call` for each pair, in order.
abbrev pub insert_all : Dict String PendingCall → Dict String PendingCall → Dict String PendingCall
insert_all [] d = d
insert_all ((id, call) ∷ calls) d = insert_all calls (insert id call d)

pub Absent-insert :
    (id : String) (call : PendingCall) (ids d : Dict String PendingCall)
    → lookup id ids ≡ none
    → Absent ids d
    → Absent ids (insert id call d)
unfolding lookup
Absent-insert id call [] d fresh h = tt
Absent-insert id call ((j, c) ∷ ids) d fresh h =
    ground (arith, lookup-insert j id call d, Absent-insert id call ids d)

Absent-erase :
    (id : String) (ids d : Dict String PendingCall) → Absent ids d → Absent ids (erase id d)
Absent-erase id [] d h = tt
Absent-erase id ((j, c) ∷ ids) d h = (lookup-erase-none j id d h.0, Absent-erase id ids d h.1)

Absent-end : (xs ys d : Dict String PendingCall) → Absent (xs ++ ys) d → Absent ys d
Absent-end [] ys d h = h
Absent-end (x ∷ xs) ys d h = Absent-end xs ys d h.1

pub Absent-nil : (ids : Dict String PendingCall) → Absent ids []
unfolding lookup
Absent-nil [] = tt
Absent-nil ((id, c) ∷ ids) = (refl, Absent-nil ids)

pub Absent-insert_all :
    (xs ys d : Dict String PendingCall)
    → NodupKeys (xs ++ ys)
    → Absent (xs ++ ys) d
    → Absent ys (insert_all xs d)
Absent-insert_all [] ys d n h = h
Absent-insert_all ((id, c) ∷ xs) ys d n h =
    Absent-insert_all xs ys (insert id c d) n.1 (Absent-insert id c (xs ++ ys) d n.0 h.1)

module _ (w : Weight) where
  abbrev pub call_weight : List ToolCall → ℕ
  call_weight = sum_by (λ (c : ToolCall). w c.name c.input_chars)

  abbrev pub pending_weight : Dict String PendingCall → ℕ
  pending_weight [] = 0
  pending_weight ((id, call) ∷ d) = w call.name call.input_chars + pending_weight d

  pub weight-insert :
      (id : String) (call : PendingCall) (d : Dict String PendingCall)
      → lookup id d ≡ none
      → pending_weight (insert id call d) ≡ w call.name call.input_chars + pending_weight d
  unfolding insert lookup
  weight-insert id call [] h = refl
  weight-insert id call ((j, c) ∷ d) h = ground (arith, weight-insert id call d)

  weight-erase :
      (id : String) (call : PendingCall) (d : Dict String PendingCall)
      → lookup id d ≡ some call
      → w call.name call.input_chars + pending_weight (erase id d) ≡ pending_weight d
  unfolding erase lookup
  weight-erase id call [] h = absurd (cc h)
  weight-erase id call ((j, c) ∷ d) h = ground (arith, weight-erase id call d)

  pub weight-insert_all :
      (xs ys d : Dict String PendingCall)
      → NodupKeys (xs ++ ys)
      → Absent (xs ++ ys) d
      → pending_weight (insert_all xs d) ≡ pending_weight xs + pending_weight d
  weight-insert_all [] ys d n h = omega arith
  weight-insert_all ((id, c) ∷ xs) ys d n h = omega (
    arith,
    weight-insert_all xs ys (insert id c d) n.1 (Absent-insert id c (xs ++ ys) d n.0 h.1),
    weight-insert id c d h.0,
  )

  pub weight-append :
      (xs ys : Dict String PendingCall)
      → pending_weight (xs ++ ys) ≡ pending_weight xs + pending_weight ys
  weight-append [] ys = omega arith
  weight-append ((id, c) ∷ xs) ys = omega (arith, weight-append xs ys)

  pub weight-drain :
      (o : Origin) (d : Dict String PendingCall)
      → call_weight (drain_pending o d) ≡ pending_weight d
  unfolding drain_pending
  weight-drain o [] = refl
  weight-drain o ((id, c) ∷ d) = omega (arith, weight-drain o d)

  -- A join finishes what it takes from the pending calls.
  abbrev pub Conserves : Dict String PendingCall → Joined → Type 0
  Conserves pending j = call_weight j.0 + pending_weight j.1 ≡ pending_weight pending

  pub Conserves-join_id :
      (o : Origin) (f : Finish) (id : Option String) (pending : Dict String PendingCall)
      → Conserves pending (join_id o f id pending)
  unfolding join_id finish
  Conserves-join_id o f none pending = omega arith
  Conserves-join_id o f (some id) pending = popped (lookup id pending) refl
    where
      popped :
          (found : Option PendingCall)
          → lookup id pending ≡ found
          → Conserves pending (pop_call o f id found pending)
      popped none e = omega arith
      popped (some call) e = omega (arith, weight-erase id call pending e)

  pub Conserves-join_blocks :
      (o : Origin) (entry : Fields) (blocks : List (Option Fields))
      (pending : Dict String PendingCall)
      → Conserves pending (join_blocks o entry blocks pending)
  unfolding join_blocks
  Conserves-join_blocks o entry [] pending = omega arith
  Conserves-join_blocks o entry (block ∷ blocks) pending =
      let j : Joined = join_id o (block_finish entry block) (result_id entry block) pending in
      let k : Joined = join_blocks o entry blocks j.1 in
      omega (
        arith,
        Conserves-join_id o (block_finish entry block) (result_id entry block) pending,
        Conserves-join_blocks o entry blocks j.1,
        sum_by-append (λ (c : ToolCall). w c.name c.input_chars) j.0 k.0,
      )

pub Absent-join_id :
    (o : Origin) (f : Finish) (id : Option String) (ids pending : Dict String PendingCall)
    → Absent ids pending
    → Absent ids (join_id o f id pending).1
unfolding join_id
Absent-join_id o f none ids pending h = h
Absent-join_id o f (some id) ids pending h = popped (lookup id pending)
  where
    popped : (found : Option PendingCall) → Absent ids (pop_call o f id found pending).1
    popped none = h
    popped (some call) = Absent-erase id ids pending h

pub Absent-join_blocks :
    (o : Origin) (entry : Fields) (blocks : List (Option Fields))
    (ids pending : Dict String PendingCall)
    → Absent ids pending
    → Absent ids (join_blocks o entry blocks pending).1
unfolding join_blocks
Absent-join_blocks o entry [] ids pending h = h
Absent-join_blocks o entry (block ∷ blocks) ids pending h =
    Absent-join_blocks o entry blocks ids _
      (Absent-join_id o (block_finish entry block) (result_id entry block) ids pending h)

pub NodupKeys-end : (xs ys : Dict String PendingCall) → NodupKeys (xs ++ ys) → NodupKeys ys
NodupKeys-end [] ys n = n
NodupKeys-end (x ∷ xs) ys n = NodupKeys-end xs ys n.1
