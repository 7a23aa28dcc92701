-- ===== src/Agent/Files.antt =====
-- The file system that the agent's executors ask, as an interface over its state: `none` is an
-- `OSError`.
use ai_infra_console.Prelude.{ℕ, Bool, Option, Result, found}
use ai_infra_console.Json.{Json}
use ai_infra_console.ModelTasks.Paths.{PurePath}
use ai_infra_console.Agent.Errors.{ExecutionError, os_error}

pub record FileSystem (S : Type 0) : Type 0 where
  pub exists : S → PurePath → Option Bool
  pub is_dir : S → PurePath → Option Bool
  pub is_file : S → PurePath → Option Bool
  pub is_symlink : S → PurePath → Option Bool
  -- `path.resolve(strict=True)` and `path.resolve(strict=False)`
  pub resolve_strict : S → PurePath → Option PurePath
  pub resolve : S → PurePath → Option PurePath
  pub file_size : S → PurePath → Option ℕ
  -- `json.loads(path.read_text(encoding="utf-8"))`, none also for what is no JSON
  pub read_json : S → PurePath → Option Json
  -- `shutil.rmtree(path)` and `path.unlink()`: the state after it, and whether it went through
  pub rmtree : S → PurePath → S × Bool
  pub unlink : S → PurePath → S × Bool

-- A question whose `OSError` is not caught.
abbrev pub ask : {A : Type 0} → Option A → Result ExecutionError A
ask answer = found answer os_error
