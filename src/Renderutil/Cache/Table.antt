-- ===== src/Renderutil/Cache/Table.antt =====
-- The kept replies as a table: every connection is asked once, until it is forgotten.
pub mod Keys
pub mod Found
pub mod Leave
pub mod Steps
use xcb_util.Prelude.{
  ℕ, zero, suc, ◌+◌, ◌≡◌, ◌⊎◌, inl, inr, refl, sym, ap, ◌∙◌, List, [], ◌∷◌, Bool, true, false, ◌&&◌,
  ◌||◌, not, ltb, ◌==◌, if◌then◌else◌, Option, some, none, Outcome, done, fault, ◌>>=◌, first_match,
  All, arith, Bool-cases, Option-cases,
}
use xcb_util.Renderutil.Formats.{PictFormats}
use xcb_util.Renderutil.Cache.Depths.{Server, Screen}
use xcb_util.Renderutil.Cache.Depths.Required.{every, supported, render_depths, IsDepth}
use xcb_util.Renderutil.Cache.{
  Version, Node, Connections, Peer, Query, addresses, node_at, node_of, kept, query_version,
  query_formats, disconnect,
}

-- What is known of a connection: the version and the formats, or that there is no Render.
abbrev pub Info : Type 0
Info = Option Version × Option PictFormats

abbrev pub Table : Type 0
Table = ℕ → Option Info

-- The two replies count where every screen has the depths that Render requires.
abbrev pub info_of : Peer → Info
info_of peer =
    kept (every (λ screen. every (supported peer.server screen) render_depths) peer.server.screens)
      peer.version_reply peer.formats_reply

-- Asking what is known leaves it; asking what is not adds it, where there is memory.
abbrev pub asked : Query → Table → Table
asked q t c =
    if c == q.c
    then elim (t c) [
      | some info ↦ some info
      | none ↦ elim q.memory [ none ↦ none | some malloc ↦ some (info_of q.peer) ]
    ]
    else t c

abbrev pub forgotten : ℕ → Table → Table
forgotten c t c' = if c' == c then none else t c'

abbrev pub version_in : Option Info → Option Version
version_in none = none
version_in (some info) = info.0

abbrev pub formats_in : Option Info → Option PictFormats
formats_in none = none
formats_in (some info) = info.1

abbrev pub is_known : Option Info → Bool
is_known none = false
is_known (some info) = true

-- A program's calls, and what they return.
pub data Call : Type 0 where
  version formats : Query → Call
  leave : ℕ → Call

pub data Answer : Type 0 where
  version_is : Option Version → Answer
  formats_are : Option PictFormats → Answer
  was_known : Bool → Answer

abbrev pub call : Call → Connections → Outcome (Connections × Answer)
call (version q) s = do (s', v) ← query_version q s; done (s', version_is v)
call (formats q) s = do (s', f) ← query_formats q s; done (s', formats_are f)
call (leave c) s = let (s', known) = disconnect c s in done (s', was_known known)

unfoldable pub run : List Call → Connections → Outcome (List Answer)
run [] s = done []
run (c ∷ cs) s = do (s', a) ← call c s; rest ← run cs s'; done (a ∷ rest)

-- The same with the table.
abbrev pub next_table : Call → Table → Table
next_table (version q) t = asked q t
next_table (formats q) t = asked q t
next_table (leave c) t = forgotten c t

abbrev pub answer : Call → Table → Answer
answer (version q) t = version_is (version_in (asked q t q.c))
answer (formats q) t = formats_are (formats_in (asked q t q.c))
answer (leave c) t = was_known (is_known (t c))

unfoldable pub answers : List Call → Table → List Answer
answers [] t = []
answers (c ∷ cs) t = answer c t ∷ answers cs (next_table c t)

-- The server's depths are depths, and memory that is given is not in use.
abbrev pub IsFresh : ℕ → List ℕ → Type 0
IsFresh p used = All (λ p'. (p' == p) ≡ false) used

abbrev pub IsQuery : Query → Type 0
IsQuery q =
    All (λ screen. All IsDepth screen.depths) q.peer.server.screens
    × ((malloc : List ℕ → ℕ) (used : List ℕ) → q.memory ≡ some malloc → IsFresh (malloc used) used)

abbrev pub IsCall : Call → Type 0
IsCall (version q) = IsQuery q
IsCall (formats q) = IsQuery q
IsCall (leave c) = Unit
