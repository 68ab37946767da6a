-- ===== src/Trials.antt =====
-- The ledger of research trials: backend/services/research_trials.py, and the constraint of
-- ResearchTrial in backend/models.py that no user has one configuration twice in a family.
use quantumsentinel_web.Prelude.{
  ℕ, ◌≡◌, Bool, true, false, not, ◌==◌, ◌&&◌, if◌then◌else◌, Option, none, some, List, [], ◌∷◌, map,
  select_where, count_where, order_by,
}
pub mod Distinct
pub mod Recorded
pub mod Counted

-- Users, hashes and sources stand for their texts. The table is read in no order.
pub record ResearchTrial : Type 0 where
  user_id : ℕ
  family_hash : ℕ
  config_hash : ℕ
  source : ℕ

-- The rows of a family, and the one of a configuration.
unfoldable pub of_family : ℕ → ℕ → ResearchTrial → Bool
of_family user family t = t.user_id == user && t.family_hash == family

unfoldable pub of_config : ℕ → ℕ → ℕ → ResearchTrial → Bool
unfolding of_family
of_config user family h t = of_family user family t && t.config_hash == h

unfoldable pub is_recorded : ℕ → ℕ → List ResearchTrial → ℕ → Bool
unfolding count_where of_config
is_recorded user family rows h = not (count_where (of_config user family h) rows == 0)

-- The first occurrence of each, as a dictionary's keys.
unfoldable pub distinct : List ℕ → List ℕ
unfolding select_where
distinct [] = []
distinct (h ∷ hs) = h ∷ select_where (λ k. not (k == h)) (distinct hs)

unfoldable pub family_hash : (ℕ → List ℕ → ℕ) → (ℕ → ℕ) → ℕ → List ℕ → ℕ
unfolding distinct order_by
family_hash digest normal strategy assets =
    digest strategy (order_by (λ a. a) (distinct (map normal assets)))

-- A transaction that inserts rows: nothing where the constraint refuses one of them.
unfoldable pub commit : List ResearchTrial → List ResearchTrial → Option (List ResearchTrial)
unfolding is_recorded
commit [] rows = some rows
commit (t ∷ ts) rows =
    let rest = commit ts (t ∷ rows) in
    if is_recorded t.user_id t.family_hash rows t.config_hash then none else rest

unfoldable pub or_rows : List ResearchTrial → Option (List ResearchTrial) → List ResearchTrial
or_rows rows none = rows
or_rows rows (some written) = written

-- The transactions of other requests, each committed or rolled back.
unfoldable pub commit_each : List (List ResearchTrial) → List ResearchTrial → List ResearchTrial
unfolding commit or_rows
commit_each [] rows = rows
commit_each (ts ∷ more) rows = commit_each more (or_rows rows (commit ts rows))

unfoldable pub missing : ℕ → ℕ → List ℕ → List ResearchTrial → List ℕ
unfolding select_where is_recorded
missing user family hashes rows = select_where (λ h. not (is_recorded user family rows h)) hashes

unfoldable pub trial : ℕ → ℕ → ℕ → ℕ → ResearchTrial
trial user family source h = record {
  user_id = user;
  family_hash = family;
  config_hash = h;
  source = source;
}

-- The loop is left where nothing is missing.
unfoldable pub if_missing : List ℕ → List ResearchTrial → List ResearchTrial → List ResearchTrial
if_missing [] rows next = rows
if_missing (h ∷ hs) rows next = next

-- One attempt for each element of the list, which is what others commit between its read and its
-- own commit.
unfoldable pub attempt :
    ℕ → ℕ → ℕ → List ℕ → List (List (List ResearchTrial)) → List ResearchTrial → List ResearchTrial
unfolding missing commit commit_each trial if_missing or_rows
attempt user family source hashes [] rows = rows
attempt user family source hashes (meanwhile ∷ later) rows =
    let seen = commit_each meanwhile rows in
    let again = attempt user family source hashes later seen in
    let new = missing user family hashes rows in
    if_missing new rows (or_rows again (commit (map (trial user family source) new) seen))

unfoldable pub count : ℕ → ℕ → List ResearchTrial → ℕ
unfolding count_where of_family
count user family rows = count_where (of_family user family) rows

-- `record` of the source, with the rows that it leaves and the count that it returns.
unfoldable pub record_trials :
    (ℕ → ℕ)
    → ℕ
    → ℕ
    → List ℕ
    → ℕ
    → List (List (List ResearchTrial))
    → List ResearchTrial
    → List ResearchTrial × ℕ
unfolding attempt count distinct
record_trials digest user family configs source others rows =
    let left = attempt user family source (distinct (map digest configs)) others rows in
    (left, count user family left)
