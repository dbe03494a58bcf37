-- ===== src/Queue/Active.antt =====
-- The map of posts in flight, `active_posts` of src/worker/src/queue.rs. Its operations do not fail.
use ginbar.Prelude.{ℕ, not, List, ◌∷◌, map, ◌==◌, keep, if◌then◌else◌}
use ginbar.World.{World, M, PostPhase, ActivePostInfo, ok}

abbrev modify : (World → World) → M (Unit {0})
modify f w = (ok tt, f w)

-- `active_posts.remove(&id)`
unfoldable pub drop_post : ℕ → List ActivePostInfo → List ActivePostInfo
drop_post id = keep (λ a. not (a.post_id == id))

-- `active_posts.insert(id, ActivePostInfo::new(id, phase))`
unfoldable pub insert_post : ℕ → ℕ → PostPhase → List ActivePostInfo → List ActivePostInfo
unfolding drop_post
insert_post now id phase m =
    record { post_id = id; phase = phase; started_at = now } ∷ drop_post id m

-- `if let Some(entry) = active_posts.get_mut(&id) { entry.phase = phase }`
unfoldable pub enter_phase : ℕ → PostPhase → List ActivePostInfo → List ActivePostInfo
enter_phase id phase = map (λ a. if a.post_id == id then record a { phase = phase } else a)

abbrev pub set_phase : ℕ → PostPhase → M (Unit {0})
set_phase id phase = modify (λ w. record w { active = enter_phase id phase w.active })

abbrev pub activate : ℕ → PostPhase → M (Unit {0})
activate id phase = modify (λ w. record w { active = insert_post w.now id phase w.active })

abbrev pub deactivate : ℕ → M (Unit {0})
deactivate id = modify (λ w. record w { active = drop_post id w.active })
