-- ===== src/Deployments/Placement/Sound.antt =====
-- What a plan promises.
use ai_infra_console.Prelude.{
  ℕ, ◌≤◌, ◌≡◌, refl, ◌⊎◌, inl, inr, true, false, List, [], ◌∷◌, map, arith, ltb, leb, ◌==◌, ok,
  guard, found, >>=-eq-ok, found-eq-ok, guard-eq-ok, Elem, All, find, find-eq_some, Elem-select,
  select-Elem, Elem-sort_by, sort_by-Elem, sort_by-IsSorted, IsStrict, take, length, length-take,
  Elem-take, take-drop_le, take-or-drop, not, ==_iff,
}
use ai_infra_console.Db.{Db}
use ai_infra_console.Db.Deployments.{Gpu, automatic, manual}
use ai_infra_console.Deployments.Errors.{insufficient_gpus}
use ai_infra_console.Deployments.Placement.{
  gpu_key, is_selectable, key_precedes, precedes, memory_used, utilization, server_gpus, pick_gpus,
  candidates, DeploymentCreateRequest, plan_gpus, is_empty,
}

key_precedes-cotrans :
    (at au af ai bt bu bf bi ct cu cf ci : ℕ)
    → key_precedes bt bu bf bi at au af ai ≡ false
    → key_precedes ct cu cf ci bt bu bf bi ≡ false
    → key_precedes ct cu cf ci at au af ai ≡ false
unfolding key_precedes
key_precedes-cotrans at au af ai bt bu bf bi ct cu cf ci h k = ground arith

key_precedes-asym :
    (at au af ai bt bu bf bi : ℕ)
    → key_precedes at au af ai bt bu bf bi ≡ true
    → key_precedes bt bu bf bi at au af ai ≡ false
unfolding key_precedes
key_precedes-asym at au af ai bt bu bf bi h = ground arith

precedes-IsStrict : (db : Db) → IsStrict (precedes db)
unfolding precedes
precedes-IsStrict db = record {
  asym = λ x y h.
      key_precedes-asym x.memory_total (memory_used db x) (utilization db x) x.gpu_index
        y.memory_total (memory_used db y) (utilization db y) y.gpu_index h;
  cotrans = λ x y z h k.
      key_precedes-cotrans x.memory_total (memory_used db x) (utilization db x) x.gpu_index
        y.memory_total (memory_used db y) (utilization db y) y.gpu_index z.memory_total
        (memory_used db z) (utilization db z) z.gpu_index h k;
}

-- A GPU of the server that a plan may take.
pub record IsUsable (fresh_seconds now server : ℕ) (db : Db) (gpu : Gpu) : Type 0 where
  pub stored : Elem gpu db.gpus
  pub on_server : gpu.server_id ≡ server
  pub selectable : is_selectable fresh_seconds now server db gpu ≡ true

server_gpus-Elem :
    (server : ℕ) (db : Db) (gpu : Gpu)
    → Elem gpu (server_gpus server db)
    → (gpu.server_id ≡ server) × Elem gpu db.gpus
server_gpus-Elem server db gpu m =
    let (here, n) =
      Elem-select (λ gpu. gpu.server_id == server) db.gpus gpu (Elem-sort_by _ _ gpu m) in
    (ground arith, n)

module _ (fresh_seconds now server : ℕ) (db : Db) where
  abbrev Usable : Gpu → Type 0
  Usable = IsUsable fresh_seconds now server db

  pick_gpus-IsUsable :
      (gpu_ids : List ℕ) (selected : List Gpu)
      → pick_gpus (is_selectable fresh_seconds now server db) (server_gpus server db) gpu_ids
        ≡ ok selected
      → (map gpu_key selected ≡ gpu_ids) × All Usable selected
  unfolding pick_gpus
  pick_gpus-IsUsable [] selected h = let e : selected ≡ [] = ground arith in rw e (refl, tt)
  pick_gpus-IsUsable (gpu_id ∷ gpu_ids) selected h =
      let (gpu, there, rest) =
        >>=-eq-ok (found (find gpu_key gpu_id (server_gpus server db)) _) _ h in
      let (u, free, rest') =
        >>=-eq-ok (guard (is_selectable fresh_seconds now server db gpu) _) _ rest in
      let (others, picked, written) =
        >>=-eq-ok
          (pick_gpus (is_selectable fresh_seconds now server db) (server_gpus server db) gpu_ids) _
          rest' in
      let (ids, all) = pick_gpus-IsUsable gpu_ids others picked in
      let (same_id, m) =
        find-eq_some gpu_key gpu_id (server_gpus server db) gpu (found-eq-ok _ _ there) in
      let (here, n) = server_gpus-Elem server db gpu m in
      let e : selected ≡ gpu ∷ others = cc in
      rw e (cc, (record { stored = n; on_server = here; selectable = guard-eq-ok _ _ free }, all))

  -- A manual plan is the GPUs of the request, in its order; each belongs to the server, is
  -- fresh and is allocated to no other deployment.
  pub manual-plan :
      (request : DeploymentCreateRequest) (selected : List Gpu)
      → request.selection_mode ≡ manual
      → plan_gpus fresh_seconds now server request db ≡ ok selected
      → (map gpu_key selected ≡ request.gpu_ids) × All Usable selected
  unfolding plan_gpus
  manual-plan request selected mode h =
      let (u, some_gpu, chosen) =
        >>=-eq-ok (guard (not (is_empty (server_gpus server db))) _) _ h in
      pick_gpus-IsUsable request.gpu_ids selected (rw mode at chosen)

  candidates-IsUsable : (gpu : Gpu) → Elem gpu (candidates fresh_seconds now server db) → Usable gpu
  candidates-IsUsable gpu m =
      let (free, n) =
        Elem-select (is_selectable fresh_seconds now server db) (server_gpus server db) gpu
          (Elem-sort_by (precedes db) _ gpu m) in
      let (here, k) = server_gpus-Elem server db gpu n in
      record { stored = k; on_server = here; selectable = free }

  IsUsable-candidates : (gpu : Gpu) → Usable gpu → Elem gpu (candidates fresh_seconds now server db)
  IsUsable-candidates gpu u = sort_by-Elem (precedes db) _ gpu (
      select-Elem (is_selectable fresh_seconds now server db) (server_gpus server db) gpu
        (sort_by-Elem (λ a b. ltb a.gpu_index b.gpu_index) _ gpu
          (select-Elem (λ gpu. gpu.server_id == server) db.gpus gpu u.stored
            ((==_iff gpu.server_id server).1 u.on_server)))
        u.selectable)

  -- A usable GPU is among them, or precedes none of them.
  abbrev pub IsBest : List Gpu → Type 0
  IsBest selected =
      (gpu other : Gpu)
      → Elem gpu selected
      → Usable other
      → Elem other selected ⊎ (precedes db other gpu ≡ false)

  abbrev pub AllUsable : List Gpu → Type 0
  AllUsable selected = (gpu : Gpu) → Elem gpu selected → Usable gpu

  take-plan :
      (n : ℕ) (selected : List Gpu)
      → n ≤ length (candidates fresh_seconds now server db)
      → selected ≡ take n (candidates fresh_seconds now server db)
      → (length selected ≡ n) × AllUsable selected × IsBest selected
  take-plan n selected enough e =
      let sorted = candidates fresh_seconds now server db in
      rw e (
        omega (arith, length-take n sorted),
        λ gpu m. candidates-IsUsable gpu (Elem-take n sorted gpu m),
        λ gpu other m u. elim (take-or-drop n sorted other (IsUsable-candidates other u)) [
          | inl first ↦ inl first
          | inr later ↦ inr (
              take-drop_le (precedes db) (precedes-IsStrict db) n sorted gpu other
                (sort_by-IsSorted (precedes db) (precedes-IsStrict db) _) m later)
        ],
      )

  -- An automatic plan has as many GPUs as the tensor parallel size. Each belongs to the server, is
  -- fresh and is allocated to no other deployment, and no GPU that could have been taken and was
  -- not has more free memory, or as much and less load, or as much of both and a lower index.
  pub automatic-plan :
      (request : DeploymentCreateRequest) (selected : List Gpu)
      → request.selection_mode ≡ automatic
      → plan_gpus fresh_seconds now server request db ≡ ok selected
      → (length selected ≡ request.config.tensor_parallel_size)
        × AllUsable selected
        × IsBest selected
  unfolding plan_gpus
  automatic-plan request selected mode h =
      let n = request.config.tensor_parallel_size in
      let (u, some_gpu, chosen) =
        >>=-eq-ok (guard (not (is_empty (server_gpus server db))) _) _ h in
      let (v, enough, taken) =
        >>=-eq-ok
          (guard (leb n (length (candidates fresh_seconds now server db))) insufficient_gpus) _
          (rw mode at chosen) in
      let e : selected ≡ take n (candidates fresh_seconds now server db) = cc in
      let room : leb n (length (candidates fresh_seconds now server db)) ≡ true =
        guard-eq-ok _ _ enough in
      take-plan n selected (ground arith) e
