-- ===== src/Tee.antt =====
-- kernel/src/tee.rs: the console's tees, a stack of files that get a copy of what is written to the
-- console. The file's type and the writer, which is not of this file, are parameters: `write` takes
-- the writer's state and returns it beside its result.
mod Bounds
mod Tests
use relay_os.Prelude.{
  ℕ, ◌+◌, ◌-◌, ◌*◌, min, Bool, true, false, ◌&&◌, ◌||◌, not, Option, none, some, List, [], ◌∷◌,
  ◌++◌, map, reverse, ◌==◌, ltb, leb, if◌then◌else◌, is_some, length, take, any, filter,
}
use relay_os.Errno.{Errno, ebusy, einval, Result, ok, err}

abbrev pub tees_max : ℕ
tees_max = 64

abbrev pub tees_each : ℕ
tees_each = 4

abbrev pub chunk : ℕ
chunk = 4096

abbrev pub echo_max : ℕ
echo_max = 4 * chunk

-- `file` is `none` once a write failed.
pub record Tee (F : Type 0) : Type 0 where
  pub owner : ℕ
  pub file : Option F
  pub pending : List ℕ
  pub error : Option Errno

pub record TeeStack (F : Type 0) : Type 0 where
  pub tees : List (Tee F)
  pub closing : List (Tee F)

abbrev pub Writer : Type 0 → Type 0 → Type 0
Writer F W = W → F → List ℕ → Result (Unit {0}) × W

module _ {F : Type 0} where
  unfoldable pub new : TeeStack F
  new = record { tees = []; closing = [] }

  abbrev pub owned_by : ℕ → Tee F → Bool
  owned_by pid t = t.owner == pid

  unfoldable pub push : TeeStack F → ℕ → F → Result (Unit {0}) × TeeStack F
  push s pid file =
      let mine = length (filter (owned_by pid) s.tees) in
      if leb tees_each mine || leb tees_max (length s.tees) then (err ebusy, s) else (
        ok (record {}),
        record s {
          tees =
              s.tees ++ (record { owner = pid; file = some file; pending = []; error = none } ∷ []);
        },
      )

  unfoldable pub is_copying : TeeStack F → Bool
  is_copying s = any (λ t. is_some t.file) s.tees

  abbrev pub copy_to : List ℕ → Tee F → Tee F
  copy_to bytes t = if is_some t.file then record t { pending = t.pending ++ bytes } else t

  unfoldable pub add : TeeStack F → List ℕ → TeeStack F
  add s bytes = record s { tees = map (copy_to bytes) s.tees }

  abbrev pub echo_to : List ℕ → Tee F → Tee F
  echo_to bytes t =
      if is_some t.file
      then record t {
        pending = t.pending ++ take (min (length bytes) (echo_max - length t.pending)) bytes;
      }
      else t

  unfoldable pub add_echo : TeeStack F → List ℕ → TeeStack F
  add_echo s bytes = record s { tees = map (echo_to bytes) s.tees }

  -- The newest tee of the owner, taken out: the list is from the newest back.
  abbrev pub take_newest : ℕ → List (Tee F) → Option (Tee F × List (Tee F))
  take_newest pid [] = none
  take_newest pid (t ∷ tees) =
      let rest = take_newest pid tees in
      if owned_by pid t
      then some (t, tees)
      else (elim rest [ none ↦ none | some (found, others) ↦ some (found, t ∷ others) ])

  module _ {W : Type 0} (write : Writer F W) where
    unfoldable pub write_out : W → Tee F → Result (Unit {0}) × Tee F × W
    write_out w t = elim t.file [
      | none ↦ (ok (record {}), t, w)
      | some file ↦
          if length t.pending == 0
          then (ok (record {}), t, w)
          else (let (r, w') = write w file t.pending in
              elim r [
                | ok _ ↦ (ok (record {}), record t { pending = [] }, w')
                | err e ↦ (err e, record t { pending = []; file = none; error = some e }, w')
              ])
    ]

    -- The first loop of `flush`, over `tees`; what failed comes first in the list.
    unfoldable pub flush_each : Bool → W → List (Tee F) → List (ℕ × Errno) × List (Tee F) × W
    flush_each all w [] = ([], [], w)
    flush_each all w (t ∷ tees) =
        let (r, t', w') =
          (if all || leb chunk (length t.pending) then write_out w t else (ok (record {}), t, w)) in
        let (failed, tees', w'') = flush_each all w' tees in
        ((elim r [ ok _ ↦ failed | err e ↦ (t.owner, e) ∷ failed ]), t' ∷ tees', w'')

    unfoldable pub flush : W → TeeStack F → Bool → List (ℕ × Errno) × TeeStack F × W
    flush w s all =
        let (failed, tees, w') = flush_each all w s.tees in
        let (failed', _, w'') = flush_each true w' s.closing in
        (failed ++ failed', record { tees = tees; closing = [] }, w'')

    unfoldable pub pop : W → TeeStack F → ℕ → Result (Unit {0}) × TeeStack F × W
    pop w s pid = elim (take_newest pid (reverse s.tees)) [
      | none ↦ (err einval, s, w)
      | some (t, others) ↦
          let (flushed, t', w') = write_out w t in
          (
            (elim t'.error [ some e ↦ err e | none ↦ flushed ]),
            record s { tees = reverse others },
            w',
          )
    ]

  unfoldable pub end : TeeStack F → ℕ → TeeStack F
  end s pid = record {
    tees = filter (λ t. not (owned_by pid t)) s.tees;
    closing = s.closing ++ filter (λ t. is_some t.file) (filter (owned_by pid) s.tees);
  }
