-- ===== src/Renderutil/Cache.antt =====
-- renderutil/cache.c: what the server says of Render, kept for each connection.
pub mod Depths
pub mod Table
use xcb_util.Prelude.{
  ℕ, zero, suc, ◌≡◌, List, [], ◌∷◌, Bool, true, false, ◌&&◌, ◌||◌, not, ltb, ◌==◌, if◌then◌else◌,
  Option, some, none, Outcome, done, fault, ◌>>=◌, first_match,
}
use xcb_util.Renderutil.Formats.{PictFormats}
use xcb_util.Renderutil.Cache.Depths.{Server, has_required_depths}

-- `xcb_render_query_version_reply_t`
pub record Version : Type 0 where
  pub major_version : ℕ
  pub minor_version : ℕ

-- `connection_cache`, with the address that it stands at. A null pointer is `none`.
pub record Node : Type 0 where
  pub at : ℕ
  pub c : ℕ
  pub version : Option Version
  pub formats : Option PictFormats

-- `connections`: the list from `head` on, and the address in `cur`.
pub record Connections : Type 0 where
  pub nodes : List Node
  pub cur : Option ℕ

-- The other end of a connection: the server, and its replies to `QueryVersion` and `QueryPictFormats`.
pub record Peer : Type 0 where
  pub server : Server
  pub version_reply : Option Version
  pub formats_reply : Option PictFormats

-- A question about a connection: `memory` is `malloc`, which fails or picks an address for those that are
-- in use.
pub record Query : Type 0 where
  pub c : ℕ
  pub memory : Option (List ℕ → ℕ)
  pub peer : Peer

unfoldable pub addresses : List Node → List ℕ
addresses [] = []
addresses (n ∷ ns) = n.at ∷ addresses ns

abbrev pub node_at : ℕ → List Node → Option Node
node_at p nodes = first_match (λ n. n.at == p) nodes

abbrev pub node_of : ℕ → List Node → Option Node
node_of c nodes = first_match (λ n. n.c == c) nodes

-- What is kept of the two replies.
abbrev pub kept : Bool → Option Version → Option PictFormats → Option Version × Option PictFormats
kept true (some v) (some f) = (
  some v,
  some (if v.major_version == 0 && ltb v.minor_version 6 then record f { num_subpixel = 0 } else f),
)
kept _ _ _ = (none, none)

unfoldable pub new_node : ℕ → ℕ → Peer → Outcome Node
new_node at c peer = do
  present ← has_required_depths peer.server
  let (version, formats) = kept present peer.version_reply peer.formats_reply
  done (record { at = at; c = c; version = version; formats = formats })

-- The connections after the call, and the pointer that it returns.
unfoldable pub find_or_create_display : Query → Connections → Outcome (Connections × Option ℕ)
find_or_create_display q s = elim (node_of q.c s.nodes) [
  | some info ↦ done (record s { cur = some info.at }, some info.at)
  | none ↦ elim q.memory [
    | none ↦ done (s, none)
    | some malloc ↦ do
      info ← new_node (malloc (addresses s.nodes)) q.c q.peer
      done (record { nodes = info ∷ s.nodes; cur = some info.at }, some info.at)
  ]
]

-- `find_display` once it has read `cur`, which it does without the lock.
unfoldable pub find_display_from : Option ℕ → Query → Connections → Outcome (Connections × Option ℕ)
find_display_from none q s = find_or_create_display q s
find_display_from (some p) q s = elim (node_at p s.nodes) [
  | none ↦ fault
  | some info ↦ if info.c == q.c then done (s, some p) else find_or_create_display q s
]

unfoldable pub find_display : Query → Connections → Outcome (Connections × Option ℕ)
find_display q s = find_display_from s.cur q s

-- A field of the structure at a pointer, or null.
unfoldable pub field {ℓ} :
    {A : Type ℓ} → (Node → Option A) → Option ℕ → List Node → Outcome (Option A)
field get none nodes = done none
field get (some p) nodes = elim (node_at p nodes) [ none ↦ fault | some info ↦ done (get info) ]

unfoldable pub query_version : Query → Connections → Outcome (Connections × Option Version)
query_version q s = do
  (s', info) ← find_display q s
  v ← field (λ n. n.version) info s'.nodes
  done (s', v)

unfoldable pub query_formats : Query → Connections → Outcome (Connections × Option PictFormats)
query_formats q s = do
  (s', info) ← find_display q s
  f ← field (λ n. n.formats) info s'.nodes
  done (s', f)

-- The loop of `xcb_render_util_disconnect`: the list without the first node of the connection, and that
-- node's address.
unfoldable pub unlink : ℕ → List Node → List Node × Option ℕ
unlink c [] = ([], none)
unlink c (n ∷ ns) =
    let (rest, found) = unlink c ns in if n.c == c then (ns, some n.at) else (n ∷ rest, found)

unfoldable pub disconnect : ℕ → Connections → Connections × Bool
disconnect c s =
    let (nodes, found) = unlink c s.nodes in
    elim found [
      | none ↦ (s, false)
      | some p ↦ (
        record {
          nodes = nodes;
          cur = elim s.cur [ none ↦ none | some p' ↦ if p == p' then none else some p' ];
        },
        true,
      )
    ]
