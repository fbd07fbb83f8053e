-- ===== src/Workspace/Runtime.antt =====
-- internal/workspace/overlays.go: the runtime of open documents. Loading the configuration, loading
-- the workspace and validating it, over the files with the open documents laid over them, are a
-- `Loader`; so is what the files hold for one reload.
pub mod Steps
pub mod View
pub mod Refine
pub mod Reload
use mergeway_cli.Prelude.{
  String, Bool, true, false, Option, none, some, Result, ok, err, List, [], ◌∷◌,
}
use mergeway_cli.Go.Int.{ℤ}
use mergeway_cli.Go.Map.{Map, get, put, remove}
use mergeway_cli.Workspace.Index.{Workspace}

pub record OpenDocument : Type 0 where
  pub uri : String
  pub path : String
  pub language_id : String
  pub version : ℤ
  pub text : String

abbrev pub Documents : Type 0
Documents = Map OpenDocument

-- `RootIndex` of internal/workspace/roots.go; a set is the list of its elements.
pub record RootIndex : Type 0 where
  pub root : String
  pub config_path : String
  pub config_files : List String
  pub data_files : Map (List String)
  pub workspace : Option Workspace

pub record Loader : Type 1 where
  pub Disk : Type 0
  pub Config : Type 0
  pub Error : Type 0
  pub Report : Type 0
  pub load_config : Disk → Documents → RootIndex → Result Error Config
  pub load : Disk → Documents → RootIndex → Config → Result Error Workspace
  pub validate : Disk → Documents → RootIndex → Config → Result Error Report

abbrev pub ok_part : {E A : Type 0} → Result E A → Option A
ok_part (ok a) = some a
ok_part (err e) = none

abbrev pub err_part : {E A : Type 0} → Result E A → Option E
err_part (ok a) = none
err_part (err e) = some e

-- the first error, or else the second
abbrev pub or_error : {E : Type 0} → Option E → Option E → Option E
or_error (some e) other = some e
or_error none other = other

-- `errors.New` of `DidChange`
pub data ChangeError : Type 0 where
  not_open : ChangeError

module _ (l : Loader) where
  pub record RootRuntime : Type 0 where
    pub index : RootIndex
    pub workspace : Option Workspace
    pub load_err : Option l.Error
    pub validation : Option l.Report

  -- `Runtime`; the timer is armed where its function has still to start. The hook is left out.
  pub record Runtime : Type 0 where
    pub base : List RootIndex
    pub roots : Map RootRuntime
    pub documents : Documents
    pub armed : Bool

  -- what `NewRuntime` puts in for each root
  abbrev pub initial_roots : List RootIndex → Map RootRuntime → Map RootRuntime
  initial_roots [] roots = roots
  initial_roots (i ∷ is) roots = initial_roots is (
      put roots i.root
        (record { index = i; workspace = i.workspace; load_err = none; validation = none }))

  -- `NewRuntime`; a set that is `nil` has no roots.
  unfoldable pub new_runtime : List RootIndex → Runtime
  new_runtime base = record {
    base = base;
    roots = initial_roots base [];
    documents = [];
    armed = false;
  }

  -- `DidOpen`; `scheduleReloadLocked` arms the timer.
  unfoldable pub did_open : Runtime → OpenDocument → Runtime
  did_open r doc = record r { documents = put r.documents doc.path doc; armed = true }

  abbrev pub edited : OpenDocument → ℤ → String → OpenDocument
  edited doc version text = record doc { version = version; text = text }

  abbrev pub change_document :
      Runtime → String → ℤ → String → Option OpenDocument → Result ChangeError Runtime
  change_document r path version text none = err not_open
  change_document r path version text (some doc) =
      ok (record r { documents = put r.documents path (edited doc version text); armed = true })

  -- `DidChange`
  unfoldable pub did_change : Runtime → String → ℤ → String → Result ChangeError Runtime
  did_change r path version text = change_document r path version text (get r.documents path)

  -- `DidClose`
  unfoldable pub did_close : Runtime → String → Runtime
  did_close r path = record r { documents = remove r.documents path; armed = true }

  -- the start of `FlushReload`
  unfoldable pub stop_timer : Runtime → Runtime
  stop_timer r = record r { armed = false }

  abbrev pub loaded_root : l.Disk → Documents → RootIndex → Result l.Error l.Config → RootRuntime
  loaded_root disk docs i (err e) = record {
    index = i;
    workspace = none;
    load_err = some e;
    validation = none;
  }
  loaded_root disk docs i (ok config) =
      let ws = l.load disk docs i config in
      let report = l.validate disk docs i config in
      record {
        index = i;
        workspace = ok_part ws;
        load_err = or_error (err_part ws) (err_part report);
        validation = ok_part report;
      }

  -- one round of the loop of `reload`
  unfoldable pub root_state : l.Disk → Documents → RootIndex → RootRuntime
  root_state disk docs i = loaded_root disk docs i (l.load_config disk docs i)

  -- the loop of `reload`
  unfoldable pub next_roots :
      l.Disk → Documents → List RootIndex → Map RootRuntime → Map RootRuntime
  next_roots disk docs [] next = next
  next_roots disk docs (i ∷ is) next =
      next_roots disk docs is (put next i.root (root_state disk docs i))

  -- Go leaves the order of the entries open.
  abbrev pub put_all : Map RootRuntime → Map RootRuntime → Map RootRuntime
  put_all roots [] = roots
  put_all roots ((name, state) ∷ next) = put (put_all roots next) name state

  -- the end of `reload`
  unfoldable pub publish : Runtime → Map RootRuntime → Runtime
  publish r next = record r { roots = put_all r.roots next }
