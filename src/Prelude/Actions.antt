-- ===== src/Prelude/Actions.antt =====
-- Code that reads and changes a state: a step from a state to a result and the next state.

abbrev pub Action {ℓ} : Type ℓ → Type ℓ → Type ℓ
Action S A = S → A × S

-- An action of the world, seen from an object that has the world beside its own fields.
abbrev pub outside : {C W A : Type 0} → Action W A → Action (C × W) A
outside m s = ((m s.1).0, (s.0, (m s.1).1))
