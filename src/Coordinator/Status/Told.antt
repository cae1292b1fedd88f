-- ===== src/Coordinator/Status/Told.antt =====
-- What a client may take from the status of a build.
use distcompile.Prelude.{◌≤◌, ◌<◌, ◌≡◌, ◌≢◌, ◌⊎◌, Bool, false, length, if◌then◌else◌}
use distcompile.Coordinator.Rows.{Build, active, build_done}
use distcompile.Coordinator.Status.{BuildStatus}

-- What is in a reply, where `b` is the build as the query of the counts saw it, and `level`
-- whether the coordinator owes it no look then.
pub record Told (full level : Bool) (b : Build) (st : BuildStatus) : Type 0 where
  pub most : st.finished ≤ st.total
  pub hits : st.cached ≤ st.finished
  pub done : st.state ≡ build_done → st.finished ≡ st.total
  pub going : st.state ≡ active → (st.finished < st.total) ⊎ (b.state ≢ active) ⊎ (level ≡ false)
  pub listed : length st.tasks ≡ (if full then st.total else 0)
