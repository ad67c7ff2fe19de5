-- ===== src/Renderutil/Cache/Table/Steps.antt =====
-- What each call does to the table.
use xcb_util.Prelude.{
  ℕ, ◌≡◌, refl, ap, ◌∙◌, List, [], ◌∷◌, Option, some, none, done, first_match, All,
}
use xcb_util.Renderutil.Cache.{
  Node, Connections, Query, node_of, field, query_version, query_formats,
}
use xcb_util.Renderutil.Cache.Table.{
  Table, IsQuery, version_in, formats_in, Call, version, formats, leave, call, next_table, answer,
  answers, run, IsCall, is_known, version_is, formats_are, was_known,
}
use xcb_util.Renderutil.Cache.Table.Leave.{disconnect-IsLeft}
use xcb_util.Renderutil.Cache.Table.Found.{
  IsConnections, info, table_of, IsPointer, find_display-IsFound,
}

abbrev of_node {ℓ} : {A : Type ℓ} → (Node → Option A) → Option Node → Option A
of_node get none = none
of_node get (some n) = get n

field_lem {ℓ} :
    {A : Type ℓ} (get : Node → Option A) (pointer : Option ℕ) (c : ℕ) (nodes : List Node)
    → IsPointer pointer c nodes
    → field get pointer nodes ≡ done (of_node get (node_of c nodes))
unfolding field
field_lem get none c nodes h = rw h refl
field_lem get (some p) c nodes (n, at, of) = rw (field, at, of) refl

version_lem : (o : Option Node) → of_node (λ n. n.version) o ≡ version_in (info o)
version_lem none = refl
version_lem (some n) = refl

formats_lem : (o : Option Node) → of_node (λ n. n.formats) o ≡ formats_in (info o)
formats_lem none = refl
formats_lem (some n) = refl

-- A call keeps the connections well formed, and does with their table what it is to do.
pub record IsStep (c : Call) (s : Connections) : Type 0 where
  pub after : Connections
  pub returned : call c s ≡ done (after, answer c (table_of s))
  pub still : IsConnections after
  pub table : (c' : ℕ) → table_of after c' ≡ next_table c (table_of s) c'

query_version-IsStep :
    (q : Query) (s : Connections) → IsQuery q → IsConnections s → IsStep (version q) s
unfolding query_version
query_version-IsStep q s query h =
    let found = find_display-IsFound q s query h in
    let read =
      field_lem (λ n. n.version) found.pointer q.c found.after.nodes found.points
      ∙ ap done (version_lem (node_of q.c found.after.nodes) ∙ ap version_in (found.table q.c)) in
    record {
      after = found.after;
      returned = rw (query_version, found.returned, read) refl;
      still = found.still;
      table = found.table;
    }

query_formats-IsStep :
    (q : Query) (s : Connections) → IsQuery q → IsConnections s → IsStep (formats q) s
unfolding query_formats
query_formats-IsStep q s query h =
    let found = find_display-IsFound q s query h in
    let read =
      field_lem (λ n. n.formats) found.pointer q.c found.after.nodes found.points
      ∙ ap done (formats_lem (node_of q.c found.after.nodes) ∙ ap formats_in (found.table q.c)) in
    record {
      after = found.after;
      returned = rw (query_formats, found.returned, read) refl;
      still = found.still;
      table = found.table;
    }

call-IsStep : (c : Call) (s : Connections) → IsCall c → IsConnections s → IsStep c s
call-IsStep (version q) s query h = query_version-IsStep q s query h
call-IsStep (formats q) s query h = query_formats-IsStep q s query h
call-IsStep (leave c) s query h =
    let left = disconnect-IsLeft c s h in
    record {
      after = left.after;
      returned = rw left.returned refl;
      still = left.still;
      table = left.table;
    }

abbrev IsSame : Table → Table → Type 0
IsSame t t' = (c : ℕ) → t c ≡ t' c

next_table-IsSame :
    (c : Call) (t t' : Table) → IsSame t t' → IsSame (next_table c t) (next_table c t')
next_table-IsSame (version q) t t' h c = rw (h c) refl
next_table-IsSame (formats q) t t' h c = rw (h c) refl
next_table-IsSame (leave k) t t' h c = rw (h c) refl

answer-same : (c : Call) (t t' : Table) → IsSame t t' → answer c t ≡ answer c t'
answer-same (version q) t t' h =
    ap (λ i. version_is (version_in i)) (next_table-IsSame (version q) t t' h q.c)
answer-same (formats q) t t' h =
    ap (λ i. formats_are (formats_in i)) (next_table-IsSame (formats q) t t' h q.c)
answer-same (leave k) t t' h = ap (λ i. was_known (is_known i)) (h k)

run_lem :
    (cs : List Call) (s : Connections) (t : Table)
    → All IsCall cs
    → IsConnections s
    → IsSame (table_of s) t
    → run cs s ≡ done (answers cs t)
unfolding run answers
run_lem [] s t all h same = refl
run_lem (c ∷ cs) s t (one, all) h same =
    let step = call-IsStep c s one h in
    let after : IsSame (table_of step.after) (next_table c t) =
      λ k. step.table k ∙ next_table-IsSame c (table_of s) t same k in
    rw
      (
        step.returned,
        run_lem cs step.after (next_table c t) all step.still after,
        answer-same c (table_of s) t same,
      )
      refl

-- At the start nothing is known.
abbrev pub no_connections : Connections
no_connections = record { nodes = []; cur = none }

abbrev pub empty_table : Table
empty_table c = none

-- Whatever a program asks of connections and whichever it leaves, in whatever order, all calls return, and
-- their answers are those of a table: the first question about a connection enters what its server replies, or
-- that there is no Render, later questions find that again, and leaving the connection takes it out. The list,
-- the pointer to the node used last and the addresses of the nodes do not show. One thread makes the calls,
-- `malloc` may fail but gives no address that is in use, and the depths of servers are from 1 to 32.
pub run-eq-answers :
    (cs : List Call) → All IsCall cs → run cs no_connections ≡ done (answers cs empty_table)
unfolding first_match
run-eq-answers cs all =
    run_lem cs no_connections empty_table all
      (record { by_address = tt; by_connection = tt; live = tt }) (λ c. refl)
