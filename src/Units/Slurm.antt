-- ===== src/Units/Slurm.antt =====
-- src/units/slurm.rs: local exceptions. `none` is a panic. The SLURM file with its filters is
-- rpki's: it is a parameter, as are the results of the file system.
pub mod Laws
use rtrtr.Base.{
  ℕ, ◌-◌, Bool, true, false, not, List, [], ◌∷◌, ◌++◌, Option, none, some, length, leb,
  if◌then◌else◌, ◌>>=◌, assert, ◌>>◌,
}
use rtrtr.Order.{Order}
use rtrtr.Payload.Pack.{Pack, PackBuilder, insert_unchecked}
use rtrtr.Payload.Pack
use rtrtr.Payload.Set.{Set}
use rtrtr.Payload.Filter.{filter}
use rtrtr.Payload.Builder.{SetBuilder, to_builder, insert_pack, finalize}
use rtrtr.Payload.Update.{Update, new}
use rtrtr.Comms.Status.{UnitUpdate, payload, stalled, gone}

-- A difference of two lengths, which panics below zero in a debug build.
unfoldable pub minus : ℕ → ℕ → Option ℕ
minus a b = if leb b a then some (a - b) else none

-- What the unit uses of rpki::slurm.
pub record Slurm (A : Type 0) : Type 1 where
  pub SlurmFile : Type 0
  pub Filters : Type 0
  pub filters : SlurmFile → Filters
  pub iter_payload : SlurmFile → List A
  pub drop_payload : Filters → A → Bool
  pub no_filters : Filters

-- A result of the file system.
pub data Io (E T : Type 0) : Type 0 where
  done : T → Io E T
  failed : E → Io E T

module _ {A : Type 0} (slurm : Slurm A) where
  pub record Content : Type 0 where
    pub filters : slurm.Filters
    pub assertions : Pack A

  -- The derived `Default`.
  abbrev pub default : Content
  default = record { filters = slurm.no_filters; assertions = Pack.default }

  -- The closure of `apply`, which has no state.
  unfoldable pub retain : slurm.Filters → Unit {0} → A → Unit {0} × Bool
  retain filters u item = (u, not (slurm.drop_payload filters item))

module _ {A : Type 0} ⦃o : Order A⦄ (slurm : Slurm A) where
  -- `Content::apply`, with the numbers of items added and removed that it logs.
  unfoldable pub apply : Content slurm → Set A → Option (Set A × ℕ × ℕ)
  apply c set = do
    (_, filtered) ← filter (retain slurm c.filters) tt set
    res ← finalize (insert_pack (to_builder filtered) c.assertions)
    added ← minus res.len filtered.len
    removed ← minus set.len filtered.len
    some (res, added, removed)

  -- `From<SlurmFile>`
  unfoldable pub insert_all : PackBuilder A → List A → PackBuilder A
  insert_all b [] = b
  insert_all b (x ∷ xs) = insert_all (insert_unchecked b x) xs

  unfoldable pub from_file : slurm.SlurmFile → Content slurm
  from_file file = record {
    filters = slurm.filters file;
    assertions = Pack.finalize (insert_all Pack.empty (slurm.iter_payload file));
  }

  -- `ExceptionSet::apply`: the files one after the other.
  unfoldable pub apply_files : List (Content slurm) → Set A → Option (Set A)
  apply_files [] set = some set
  apply_files (file ∷ files) set = do (next, _, _) ← apply file set; apply_files files next

  unfoldable pub apply_update : List (Content slurm) → Update A → Option (Update A)
  apply_update files update = do set ← apply_files files update.set; some (new set)

  -- `new_modified <= *old_modified`, if there is an old time.
  unfoldable pub unchanged : {Time : Type 0} → (Time → Time → Bool) → Time → Option Time → Bool
  unchanged le new_modified none = false
  unchanged le new_modified (some old_modified) = le new_modified old_modified

  -- `ExceptionSetData::update_file`: the file system gives the time of the last change, and the
  -- file as parsed. The result, the time kept and the content follow.
  unfoldable pub update_file :
      {E Time : Type 0}
      → (Time → Time → Bool)
      → Io E Time
      → Io E slurm.SlurmFile
      → Option Time
      → Content slurm
      → Io E Bool × Option Time × Content slurm
  update_file le (failed e) file old_modified content = (failed e, old_modified, content)
  update_file le (done new_modified) file old_modified content =
      elim (unchanged le new_modified old_modified) [
        | true ↦ (done false, old_modified, content)
        | false ↦ elim file [
          | failed e ↦ (failed e, some new_modified, content)
          | done parsed ↦ (done true, some new_modified, from_file parsed)
        ]
      ]

  -- One round of `update_thread` over the files: whether to notify, and what is kept.
  unfoldable pub update_round :
      {E Time : Type 0}
      → (Time → Time → Bool)
      → List (Io E Time × Io E slurm.SlurmFile)
      → List (Option Time × Content slurm)
      → Bool × List (Option Time × Content slurm)
  update_round le [] kept = (false, kept)
  update_round le (f ∷ fs) [] = (false, [])
  update_round le ((metadata, file) ∷ fs) ((modified, content) ∷ kept) =
      let (result, modified', content') = update_file le metadata file modified content in
      let (updated, kept') = update_round le fs kept in
      (
        elim result [ done true ↦ true | done false ↦ updated | failed e ↦ updated ],
        (modified', content') ∷ kept',
      )

-- What `LocalExceptions::run` waits for: an update of its source, a notification of its files, or
-- the gate.
pub data ExceptionEvent (A : Type 0) : Type 0 where
  source_update : UnitUpdate (Update A) → ExceptionEvent A
  notified processed : ExceptionEvent A

module _ {A : Type 0} ⦃o : Order A⦄ (slurm : Slurm A) where
  -- What the loop sends when it gets to its end; `data_of_source` is the payload of the link.
  unfoldable pub send_excepted :
      List (Content slurm) → Bool → Option (Update A) → Option (Option (UnitUpdate (Update A)))
  send_excepted files ready none = some none
  send_excepted files ready (some data_of_source) = elim ready [
    | false ↦ some none
    | true ↦ do u ← apply_update slurm files data_of_source; some (some (UnitUpdate.payload u))
  ]

  -- A round of the loop: whether the unit is ready, what it sends, and whether it goes on.
  unfoldable pub run_event :
      List (Content slurm)
      → Bool
      → Option (Update A)
      → ExceptionEvent A
      → Option (Bool × Option (UnitUpdate (Update A)) × Bool)
  run_event files ready source (source_update (payload u)) = do
    sent ← send_excepted files ready source
    some (ready, sent, true)
  run_event files ready source (source_update gone) = some (ready, some UnitUpdate.gone, false)
  run_event files ready source (source_update stalled) = some (ready, none, true)
  run_event files ready source notified = do
    sent ← send_excepted files true source
    some (true, sent, true)
  run_event files ready source processed = some (ready, none, true)
