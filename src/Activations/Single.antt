-- ===== src/Activations/Single.antt =====
-- A licence is handed out at most once for each time that its activation was armed, however the
-- reads and the updates of several claims of src/delivery/license-activation.service.ts interleave.
use open_editor_text_backend.Base.{
  ℕ, ◌+◌, ◌≤◌, Bool, not, ◌&&◌, List, [], ◌∷◌, Option, none, some, ◌≡◌, inl, inr, refl, ap, arith,
  Text, text_beq, text_beq_iff, text_eq, count, update, Bool-cases, Option-cases, ltb, is_empty,
  trim,
}
use open_editor_text_backend.Activations.{
  Activation, is_unclaimed, is_open, find_activation, rearmed, new_activation, create, spent, look,
  take_claim, handed, prune_expired,
}
use open_editor_text_backend.Activations.Rows.{
  rows_with, open_count, open-le, open-rearmed_other, open-spent, rows_with-keep, open-keep,
  rows_with-update, new_row_one,
}

-- The table, the rows that claims in flight have read, the ids of the rows that were armed, and
-- the ids of the rows whose licence was handed out.
pub record World : Type 0 where
  pub rows : List Activation
  pub in_flight : List Activation
  pub armed : List Text
  pub granted : List Text

abbrev pub empty_world : World
empty_world = record { rows = []; in_flight = []; armed = []; granted = [] }

abbrev pub arm : Option Text → List Text → List Text
arm none ids = ids
arm (some id) ids = id ∷ ids

abbrev pub grant : Activation → ℕ → List Text → List Text
grant a affected ids = elim (handed a affected) [ none ↦ ids | some lic ↦ a.id ∷ ids ]

abbrev pub times : Text → List Text → ℕ
times id ids = count (λ x. text_beq x id) ids

-- One access of one call to the table. The database draws an id that no row has had.
pub data Access : World → World → Type 0 where
  arming :
      {w : World} (row_id install lic : Text) (now : ℕ)
      → rows_with row_id w.rows ≡ 0
      → Access w (record w {
        rows = (create w.rows row_id install lic now).0;
        armed = arm (create w.rows row_id install lic now).1 w.armed;
      })
  reading :
      {w : World} (install : Text) (now : ℕ) (a : Activation)
      → look w.rows install now ≡ some a
      → Access w (record w { in_flight = a ∷ w.in_flight })
  taking :
      {w : World} (a : Activation) (origin : Text) (now : ℕ) (others : List Activation)
      → Access w (record w {
        rows = (take_claim w.rows a.id origin now).0;
        in_flight = others;
        granted = grant a (take_claim w.rows a.id origin now).1 w.granted;
      })
  pruning : {w : World} (before : ℕ) → Access w (record w { rows = prune_expired w.rows before })

pub data Run : World → World → Type 0 where
  begin : {w : World} → Run w w
  next : {u v w : World} → Run u v → Access v w → Run u w

record Fair (w : World) (id : Text) : Type 0 where
  one : rows_with id w.rows ≤ 1
  spare : times id w.granted + open_count id w.rows ≤ times id w.armed

grant-spare :
    (w : World) (id : Text) (a : Activation) (origin : Text) (now : ℕ)
    → times id w.granted + open_count id w.rows ≤ times id w.armed
    → times id (grant a (open_count a.id w.rows) w.granted)
        + open_count id (update (is_open a.id) (spent origin now) w.rows)
      ≤ times id w.armed
grant-spare w id a origin now h = elim (Bool-cases (text_beq a.id id)) [
  | inl e ↦
      let same : open_count a.id w.rows ≡ open_count id w.rows =
        ap (λ x. open_count x w.rows) ((text_beq_iff a.id id).0 e) in
      ground (arith, e, same, open-spent origin now a.id id w.rows)
  | inr e ↦ ground (arith, e, open-spent origin now a.id id w.rows)
]

taking-Fair :
    (w : World) (id : Text) (a : Activation) (origin : Text) (now : ℕ) (others : List Activation)
    → Fair w id
    → Fair
        (record w {
          rows = (take_claim w.rows a.id origin now).0;
          in_flight = others;
          granted = grant a (take_claim w.rows a.id origin now).1 w.granted;
        })
        id
unfolding take_claim
taking-Fair w id a origin now others f = record {
  one = rw (rows_with-update (spent origin now) (λ r. refl) (is_open a.id) id w.rows) f.one;
  spare = grant-spare w id a origin now f.spare;
}

rearmed-spare :
    (w : World) (id x lic : Text) (now : ℕ)
    → Fair w id
    → times id w.granted + open_count id (update (λ r. text_beq r.id x) (rearmed lic now) w.rows)
      ≤ times id (x ∷ w.armed)
rearmed-spare w id x lic now f = elim (Bool-cases (text_beq x id)) [
  | inl e ↦
      let rows = update (λ r. text_beq r.id x) (rearmed lic now) w.rows in
      ground (
        arith,
        e,
        open-le id rows,
        rows_with-update (rearmed lic now) (λ r. refl) (λ r. text_beq r.id x) id w.rows,
        f.one,
        f.spare,
      )
  | inr e ↦ ground (arith, e, open-rearmed_other lic now x id w.rows e, f.spare)
]

arming-Fair :
    (w : World) (id row_id install lic : Text) (now : ℕ)
    → rows_with row_id w.rows ≡ 0
    → Fair w id
    → Fair
        (record w {
          rows = (create w.rows row_id install lic now).0;
          armed = arm (create w.rows row_id install lic now).1 w.armed;
        })
        id
unfolding create
arming-Fair w id row_id install lic now fresh f = elim (Bool-cases (is_empty (trim install))) [
  | inl e ↦ rw e f
  | inr e ↦ elim (Bool-cases (is_empty lic)) [
    | inl e' ↦ rw (e, e') f
    | inr e' ↦ elim (Option-cases (find_activation w.rows (trim install))) [
      | inl g ↦
          rw (e, e', g)
            (record {
              one =
                  new_row_one id (new_activation row_id (trim install) lic now) w.rows fresh f.one;
              spare = ground (arith, f.spare);
            })
      | inr (a, g) ↦
          rw (e, e', g)
            (record {
              one =
                  rw
                    (rows_with-update (rearmed lic now) (λ r. refl) (λ r. text_beq r.id a.id) id
                      w.rows)
                    f.one;
              spare = rearmed-spare w id a.id lic now f;
            })
    ]
  ]
]

pruning-Fair :
    (w : World) (id : Text) (before : ℕ)
    → Fair w id
    → Fair (record w { rows = prune_expired w.rows before }) id
unfolding prune_expired
pruning-Fair w id before f =
    let gone : Activation → Bool = λ a. not (is_unclaimed a && ltb a.expires_at before) in
    record {
      one = ground (arith, rows_with-keep gone id w.rows, f.one);
      spare = ground (arith, open-keep gone id w.rows, f.spare);
    }

Access-Fair : {v w : World} (id : Text) → Access v w → Fair v id → Fair w id
Access-Fair {v} id (arming row_id install lic now fresh) f =
    arming-Fair v id row_id install lic now fresh f
Access-Fair id (reading install now a found) f = record { one = f.one; spare = f.spare }
Access-Fair {v} id (taking a origin now others) f = taking-Fair v id a origin now others f
Access-Fair {v} id (pruning before) f = pruning-Fair v id before f

Run-Fair : {v w : World} (id : Text) → Run v w → Fair v id → Fair w id
Run-Fair id begin f = f
Run-Fair id (next past last) f = Access-Fair id last (Run-Fair id past f)

-- From empty tables, a row hands its licence out at most as often as it was armed, however the reads
-- and the conditional updates of the claims interleave with each other, with new activations and
-- with the pruning of old ones.
pub granted_at_most_armed :
    {w : World} (id : Text) → Run empty_world w → times id w.granted ≤ times id w.armed
granted_at_most_armed {w} id run =
    let f = Run-Fair id run (record { one = omega arith; spare = omega arith }) in
    omega (arith, f.spare)
