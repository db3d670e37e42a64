-- ===== src/Server/Bounds.antt =====
-- Which messages the history gives, how many, and in which order.
use yappa_core.Common.{
  ℕ, ℤ, pos, negsuc, ◌≤◌, String, Option, none, some, List, [], ◌∷◌, map, length, take, Every, Any,
  ◌⊎◌, ◌≡◌,
}
use yappa_core.Server.{ok, internal_server_error, Answer}
use yappa_core.Server.History.{
  HistoryQuery, ChannelPath, MessageRow, MessageResponse, history_sql, response, FetchAll,
}

infix 50 ◌≤ℤ◌
abbrev pub ◌≤ℤ◌ : ℤ → ℤ → Type 0
pos a ≤ℤ pos b = a ≤ b
pos a ≤ℤ negsuc b = ⊥
negsuc a ≤ℤ pos b = Unit
negsuc a ≤ℤ negsuc b = b ≤ a

-- Rows that go back in time.
abbrev pub NewestFirst : List MessageRow → Type 0
NewestFirst [] = Unit
NewestFirst (r ∷ []) = Unit
NewestFirst (r ∷ q ∷ rows) = (q.timestamp ≤ℤ r.timestamp) × NewestFirst (q ∷ rows)

abbrev pub IsAmong : MessageRow → List MessageRow → Type 0
IsAmong r rows = Any (λ q. q ≡ r) rows

-- A row is shown, or `n` rows are, of which none is older.
abbrev pub IsShownOrOlder : ℕ → List MessageRow → MessageRow → Type 0
IsShownOrOlder n rows r =
    IsAmong r rows
    ⊎ ((length rows ≡ n) × Every (λ (q : MessageRow). r.timestamp ≤ℤ q.timestamp) rows)

-- How many messages are asked for: 50 if no limit is given, and otherwise the limit, or 100 if that is less.
abbrev pub IsAsked : Option ℤ → ℕ → Type 0
IsAsked none n = n ≡ 50
IsAsked (some (pos k)) n = (n ≤ 100) × (n ≤ k) × ((n ≡ 100) ⊎ (n ≡ k))
IsAsked (some (negsuc k)) n = ⊥

-- The table `messages`, each row with its tenant; `IsBefore b` says that a row was created before
-- `to_timestamp(b)`.
module _ (stored : List (String × MessageRow)) (IsBefore : String → MessageRow → Type 0) where
  -- A row of the table in the tenant and the channel, created before the time if one is given.
  abbrev pub IsOf : ChannelPath → Option String → MessageRow → Type 0
  IsOf path before r =
      Any (λ x. x ≡ (path.tenant_id, r)) stored
      × (r.channel_type ≡ path.channel_type)
      × (r.channel_id ≡ path.channel_id)
      × (elim before as (λ o. Type 0) [ none ↦ Unit | some b ↦ IsBefore b r ])

  -- All rows that the statement selects, newest first.
  pub record Selects (path : ChannelPath) (before : Option String) (rows : List MessageRow)
      : Type 0 where
    pub own : Every (IsOf path before) rows
    pub complete : (r : MessageRow) → IsOf path before r → IsAmong r rows
    pub order : NewestFirst rows

  -- What the documentation of Postgres says of the statement without a `before`, or with one that is among the safe
  -- ones: WHERE and ORDER BY give all rows, and LIMIT the first of them; it must not be negative.
  pub record IsDocumented (IsSafe : Option String → Type 0) (fetch_all : FetchAll) : Type 0 where
    pub select_lem :
        (path : ChannelPath) (before : Option String) (n : ℕ) (rows : List MessageRow)
        → IsSafe before
        → fetch_all (history_sql before) path.tenant_id path.channel_type path.channel_id (pos n)
          ≡ some rows
        → (all : List MessageRow) × Selects path before all × (rows ≡ take n all)
    pub negative_lem :
        (path : ChannelPath) (before : Option String) (n : ℕ)
        → IsSafe before
        → fetch_all (history_sql before) path.tenant_id path.channel_type path.channel_id (negsuc n)
          ≡ none

  -- The newest messages of the channel, as many as are asked for.
  pub record Page (path : ChannelPath) (query : HistoryQuery) (body : List MessageResponse)
      : Type 0 where
    pub n : ℕ
    pub rows : List MessageRow
    pub asked : IsAsked query.limit n
    pub bound : length body ≤ n
    pub shown : body ≡ map response rows
    pub own : Every (IsOf path query.before) rows
    pub order : NewestFirst rows
    pub newest : (r : MessageRow) → IsOf path query.before r → IsShownOrOlder n rows r

  -- Either a page, or the error with no message.
  abbrev pub IsAnswer : ChannelPath → HistoryQuery → Answer MessageResponse → Type 0
  IsAnswer path query answer = elim answer.status as (λ s. Type 0) [
    | ok ↦ Page path query answer.body
    | internal_server_error ↦ answer.body ≡ []
  ]

  module _ (IsSafe : Option String → Type 0) (fetch_all : FetchAll)
      (documented : IsDocumented IsSafe fetch_all) where
    abbrev fetched : ChannelPath → HistoryQuery → ℤ → Option (List MessageRow)
    fetched path query limit =
        fetch_all (history_sql query.before) path.tenant_id path.channel_type path.channel_id limit
