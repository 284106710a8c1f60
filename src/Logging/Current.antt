-- ===== src/Logging/Current.antt =====
-- Where a message goes that is logged through a `LogUtil`, after updates of its settings.
use Prim.Native.String.{String}
use rabbitmq_work.Base.{
  ℕ, ◌≡◌, ◌⊎◌, inl, inr, List, [], ◌∷◌, Option, none, some, true, false, refl, Bool-cases,
}
use rabbitmq_work.Amqp.{log_configure, log_category}
use rabbitmq_work.Session.{
  M, Log, Oracle, Outcome, Arg, Priority, called, logged, ok, aborted, pure, ◌>>=◌,
}
use rabbitmq_work.Logging.{LogUtil, log_init, new_log_util, log_update, log_at}

-- A path and the name of a category.
abbrev pub Setting : Type 0
Setting = String × String

-- The path that was configured last, and the category that was asked for last.
abbrev pub configured_from : Log → Option String
configured_from [] = none
configured_from (called (log_configure path) true ∷ l) = some path
configured_from (_ ∷ l) = configured_from l

abbrev pub newest_category : Log → Option (String × ℕ)
newest_category [] = none
newest_category (called (log_category name) r ∷ l) = some (name, r)
newest_category (_ ∷ l) = newest_category l

-- The newest event is a configuration that threw.
abbrev pub JustThrew : Log → Type 0
JustThrew (called (log_configure _) r ∷ l) = r ≡ false
JustThrew _ = ⊥

-- One `LogUpdate` after the other, and the settings that are then the last.
unfoldable pub log_updates : List Setting → LogUtil → M LogUtil
log_updates [] u = pure u
log_updates (t ∷ settings) u = log_update u t.0 t.1 >>= log_updates settings

abbrev pub last_setting : Setting → List Setting → Setting
last_setting t [] = t
last_setting _ (t ∷ settings) = last_setting t settings

pub record Current (t : Setting) (category : Option ℕ) (l : Log) : Type 0 where
  pub number : ℕ
  pub there : category ≡ some number
  pub asked : newest_category l ≡ some (t.1, number)
  pub configured : configured_from l ≡ some t.0

abbrev Ready : Setting → Outcome LogUtil × Log → Type 0
Ready t r =
    ((u : LogUtil) × (r.0 ≡ ok u) × Current t u.logger r.1) ⊎ ((r.0 ≡ aborted) × JustThrew r.1)

log_init-Ready :
    (u : LogUtil) (o : Oracle) (l : Log) → Ready (u.conf_file_path, u.configure) (log_init u o l)
unfolding log_init
log_init-Ready u o l = elim (Bool-cases (o l (log_configure u.conf_file_path))) [
  | inr threw ↦ rw threw (inr (refl, refl))
  | inl returned ↦
      rw returned
        (inl (_, refl, record { number = _; there = refl; asked = refl; configured = refl }))
]

updates-Ready :
    (settings : List Setting) (t : Setting) (u : LogUtil) (o : Oracle) (l : Log)
    → Current t u.logger l
    → Ready (last_setting t settings) (log_updates settings u o l)
unfolding log_updates log_update
updates-Ready [] t u o l c = inl (u, refl, c)
updates-Ready (t' ∷ settings) t u o l c =
    let v = record u { conf_file_path = t'.0; configure = t'.1 } in
    elim (log_init-Ready v o l) [
      | inr (e, threw) ↦ rw e (inr (refl, threw))
      | inl (w, e, c') ↦ rw e (updates-Ready settings t' w o (log_init v o l).1 c')
    ]

-- `LogUtil` made with a path and a name, given other ones any number of times, and a message.
abbrev pub log_after : Setting → List Setting → Priority → String → List Arg → M (Unit {0})
log_after t settings priority format args = do
  u ← new_log_util t.0 t.1
  v ← log_updates settings u
  log_at priority v format args

-- The message went to the category that was asked for under the last name, after the last path was
-- configured; or a configuration threw just before the end.
pub data Delivered (t : Setting) (priority : Priority) (format : String) (args : List Arg)
    (r : Outcome (Unit {0}) × Log) : Type 0 where
  went :
      (category : ℕ) (before : Log)
      → r ≡ (ok tt, logged category priority format args ∷ before)
      → newest_category before ≡ some (t.1, category)
      → configured_from before ≡ some t.0
      → Delivered t priority format args r
  threw : r.0 ≡ aborted → JustThrew r.1 → Delivered t priority format args r

-- A `LogUtil` is made, `LogUpdate` is called any number of times, and then a message is logged at any
-- priority: the message goes to the category that was asked for last, under the last of the given
-- names, with the last of the given paths the one configured last; or the program aborts right after
-- a configuration that threw.
pub log_after-Delivered :
    (t : Setting) (settings : List Setting) (priority : Priority) (format : String)
    (args : List Arg) (o : Oracle) (l : Log)
    → Delivered
        (last_setting t settings)
        priority
        format
        args
        (log_after t settings priority format args o l)
unfolding new_log_util log_at
log_after-Delivered t settings priority format args o l =
    let u : LogUtil = record { logger = none; conf_file_path = t.0; configure = t.1 } in
    elim (log_init-Ready u o l) [
      | inr (e, failed) ↦ rw e (threw refl failed)
      | inl (v, e, c) ↦ elim (updates-Ready settings t v o (log_init u o l).1 c) [
        | inr (f, failed) ↦ rw (e, f) (threw refl failed)
        | inl (w, f, d) ↦ rw (e, f, d.there) (went d.number _ refl d.asked d.configured)
      ]
    ]
