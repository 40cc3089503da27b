-- ===== src/Application/Snapshot.antt =====
-- crates/roadsim-application/src/lib.rs: the snapshot that the renderer reads. The narrowing of an
-- `f64` to an `f32` is a parameter.
use road_sim.Prelude.{
  ltb, if◌then◌else◌, Bool-cases, length, any, Result, ok, err, ℕ, suc, ◌-◌, ◌^◌, ◌≤◌, ◌≡◌, refl,
  sym, ap, ◌∙◌, inl, inr, Bool, not, ◌&&◌, Option, none, some, List, [], ◌∷◌, map, arith,
}
use Prim.Native.Nat.{min}
use road_sim.Types.Units.{is_finite}
use road_sim.Backend.Agents.{AgentState, FrameBatch}

abbrev pub max_snapshot_agents : ℕ
max_snapshot_agents = 65536

abbrev pub lane_unknown : ℕ
lane_unknown = 2 ^ 32 - 1

pub data SnapshotErrorCode : Type 0 where
  agent_limit_exceeded non_finite_agent_state : SnapshotErrorCode

pub record FrameSnapshot : Type 0 where
  pub tick : ℕ
  pub agent_ids : List ℕ
  pub lane_ids : List ℕ
  pub x_m : List ℕ
  pub y_m : List ℕ
  pub heading_rad : List ℕ
  pub length_m : List ℕ
  pub width_m : List ℕ

abbrev pub blank : FrameSnapshot
blank = record {
  tick = 0;
  agent_ids = [];
  lane_ids = [];
  x_m = [];
  y_m = [];
  heading_rad = [];
  length_m = [];
  width_m = [];
}

pub record FrameSnapshotAdapter : Type 0 where
  pub snapshot : FrameSnapshot
  pub max_agents : ℕ

unfoldable pub with_max_agents : ℕ → FrameSnapshotAdapter
with_max_agents max_agents = record {
  snapshot = blank;
  max_agents = min max_agents max_snapshot_agents;
}

unfoldable pub not_finite : AgentState → Bool
not_finite agent = not (
    is_finite agent.x_m
    && (is_finite agent.y_m
        && (is_finite agent.heading_rad
            && (is_finite agent.footprint.length_m && is_finite agent.footprint.width_m))))

-- `map_or(LANE_UNKNOWN, |lane| lane.get())`
abbrev pub lane_or_unknown : Option ℕ → ℕ
lane_or_unknown none = lane_unknown
lane_or_unknown (some lane) = lane

module _ (narrow : ℕ → ℕ) where
  unfoldable pub snapshot_of : FrameBatch → FrameSnapshot
  snapshot_of frame = record {
    tick = frame.tick;
    agent_ids = map (λ agent. agent.agent_id) frame.agents;
    lane_ids = map (λ agent. lane_or_unknown agent.lane_id) frame.agents;
    x_m = map (λ agent. narrow agent.x_m) frame.agents;
    y_m = map (λ agent. narrow agent.y_m) frame.agents;
    heading_rad = map (λ agent. narrow agent.heading_rad) frame.agents;
    length_m = map (λ agent. narrow agent.footprint.length_m) frame.agents;
    width_m = map (λ agent. narrow agent.footprint.width_m) frame.agents;
  }

  -- `FrameSnapshotAdapter::update`: what it returns, and the adapter after it.
  unfoldable pub update :
      FrameSnapshotAdapter → FrameBatch → Result (Unit {0}) SnapshotErrorCode × FrameSnapshotAdapter
  unfolding snapshot_of not_finite
  update adapter frame =
      if ltb adapter.max_agents (length frame.agents)
      then (err agent_limit_exceeded, adapter)
      else if any not_finite frame.agents
      then (err non_finite_agent_state, adapter)
      else (ok tt, record adapter { snapshot = snapshot_of frame })

  length-map : {A : Type 0} (f : A → ℕ) (xs : List A) → length (map f xs) ≡ length xs
  length-map f [] = refl
  length-map f (x ∷ xs) = ap suc (length-map f xs)

  -- The arrays of a snapshot have one length, within the limit.
  pub record IsAligned (adapter : FrameSnapshotAdapter) : Type 0 where
    pub limit : length adapter.snapshot.agent_ids ≤ adapter.max_agents
    pub lanes : length adapter.snapshot.lane_ids ≡ length adapter.snapshot.agent_ids
    pub xs : length adapter.snapshot.x_m ≡ length adapter.snapshot.agent_ids
    pub ys : length adapter.snapshot.y_m ≡ length adapter.snapshot.agent_ids
    pub headings : length adapter.snapshot.heading_rad ≡ length adapter.snapshot.agent_ids
    pub lengths : length adapter.snapshot.length_m ≡ length adapter.snapshot.agent_ids
    pub widths : length adapter.snapshot.width_m ≡ length adapter.snapshot.agent_ids

  filled :
      (adapter : FrameSnapshotAdapter) (frame : FrameBatch)
      → length frame.agents ≤ adapter.max_agents
      → IsAligned (record adapter { snapshot = snapshot_of frame })
  unfolding snapshot_of
  filled adapter frame h =
      let agents = frame.agents in
      let ids = length-map (λ (a : AgentState). a.agent_id) agents in
      let as_ids = λ (f : AgentState → ℕ). length-map f agents ∙ sym ids in
      record {
        limit = omega (arith, ids, h);
        lanes = as_ids (λ a. lane_or_unknown a.lane_id);
        xs = as_ids (λ a. narrow a.x_m);
        ys = as_ids (λ a. narrow a.y_m);
        headings = as_ids (λ a. narrow a.heading_rad);
        lengths = as_ids (λ a. narrow a.footprint.length_m);
        widths = as_ids (λ a. narrow a.footprint.width_m);
      }

  -- An update that fails leaves the adapter as it was, and any update keeps the arrays of one length,
  -- within the limit of the adapter.
  pub update-IsAligned :
      (adapter : FrameSnapshotAdapter) (frame : FrameBatch)
      → IsAligned adapter
      → IsAligned (update adapter frame).1
        × ((code : SnapshotErrorCode)
            → (update adapter frame).0 ≡ err code
            → (update adapter frame).1 ≡ adapter)
  unfolding update snapshot_of
  update-IsAligned adapter frame aligned =
      elim (Bool-cases (ltb adapter.max_agents (length frame.agents))) [
        | inl e ↦ (rw e aligned, λ code h. rw e refl)
        | inr e ↦ elim (Bool-cases (any not_finite frame.agents)) [
          | inl f ↦ (rw (e, f) aligned, λ code h. rw (e, f) refl)
          | inr f ↦ (rw (e, f) (filled adapter frame (ground arith)), λ code h. cc (rw (e, f) at h))
        ]
      ]
