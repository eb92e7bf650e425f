-- ===== src/Fleet/Reading.antt =====
-- worker.py: what `worker_list` reads of a list of jobs as `squeue` prints it.
use open_tela.Prelude.{
  ℕ, ◌≡◌, refl, sym, ap, ◌∙◌, false, List, [], ◌∷◌, ◌++◌, map, some, arith, nat_beq, if◌then◌else◌,
}
use open_tela.Auth.Texts.{Text, split, skip_space, is_space}
use open_tela.Fleet.Listing.{
  ListedJob, rstrip, strip, parse_line, is_ours, parse_lines, lines_of, worker_list,
}

-- Every character is as `P` says.
abbrev pub Chars : (ℕ → Type 0) → Text → Type 0
Chars P [] = Unit
Chars P (c ∷ s) = P c × Chars P s

abbrev NoSpace : ℕ → Type 0
NoSpace c = is_space c ≡ false

-- Neither white space nor a bar.
abbrev pub Solid : ℕ → Type 0
Solid c = (is_space c ≡ false) × (nat_beq c b'|' ≡ false)

abbrev Not : ℕ → ℕ → Type 0
Not sep c = nat_beq c sep ≡ false

Chars-map : {P Q : ℕ → Type 0} (s : Text) → ((c : ℕ) → P c → Q c) → Chars P s → Chars Q s
Chars-map [] f h = tt
Chars-map (c ∷ s) f h = (f c h.0, Chars-map s f h.1)

Chars-append : (P : ℕ → Type 0) (s t : Text) → Chars P s → Chars P t → Chars P (s ++ t)
Chars-append P [] t h k = k
Chars-append P (c ∷ s) t h k = (h.0, Chars-append P s t h.1 k)

split_field :
    (sep : ℕ) (s t : Text) → Chars (Not sep) s → split sep (s ++ sep ∷ t) ≡ s ∷ split sep t
unfolding split
split_field sep [] t h = ground arith
split_field sep (c ∷ s) t h = rw (h.0, split_field sep s t h.1) refl

split_last : (sep : ℕ) (s : Text) → Chars (Not sep) s → split sep s ≡ s ∷ []
unfolding split
split_last sep [] h = refl
split_last sep (c ∷ s) h = rw (h.0, split_last sep s h.1) refl

skip_space_none : (s : Text) → Chars NoSpace s → skip_space s ≡ s
unfolding skip_space
skip_space_none [] h = refl
skip_space_none (c ∷ s) h = rw (h.0) refl

-- Trailing white space goes, and the text before it stays.
rstrip_behind : (s t : Text) → Chars NoSpace s → rstrip t ≡ [] → rstrip (s ++ t) ≡ s
unfolding rstrip
rstrip_behind [] t h e = e
rstrip_behind (c ∷ []) t h e = rw (e, h.0) refl
rstrip_behind (c ∷ d ∷ s) t h e = rw (rstrip_behind (d ∷ s) t h.1 e) refl

append-nil : (s : Text) → s ++ [] ≡ s
append-nil [] = refl
append-nil (c ∷ s) = ap (λ t. c ∷ t) (append-nil s)

strip_none : (s : Text) → Chars NoSpace s → strip s ≡ s
unfolding strip rstrip
strip_none s h =
    rw (skip_space_none s h) (ap rstrip (sym (append-nil s)) ∙ rstrip_behind s [] h refl)

rstrip_before : (s t : Text) (c : ℕ) (u : Text) → rstrip t ≡ c ∷ u → rstrip (s ++ t) ≡ s ++ c ∷ u
unfolding rstrip
rstrip_before [] t c u e = e
rstrip_before (x ∷ []) t c u e = rw e refl
rstrip_before (x ∷ y ∷ s) t c u e = rw (rstrip_before (y ∷ s) t c u e) refl

-- A line as the format `%i|%j|%T|%M|%l|%N` prints it, and the whole output.
abbrev pub bar : Text → Text → Text
bar s t = s ++ (b'|' ∷ t)

abbrev pub render : ListedJob → Text
render j = bar j.id (bar j.name (bar j.state (bar j.elapsed (bar j.time_limit j.node))))

abbrev pub render_all : List ListedJob → Text
render_all [] = []
render_all (j ∷ js) = render j ++ b'\n' ∷ render_all js

-- No field has white space or a bar.
pub record IsPlain (j : ListedJob) : Type 0 where
  pub id_solid : Chars Solid j.id
  pub name_solid : Chars Solid j.name
  pub state_solid : Chars Solid j.state
  pub elapsed_solid : Chars Solid j.elapsed
  pub time_limit_solid : Chars Solid j.time_limit
  pub node_solid : Chars Solid j.node

no_bar : (s : Text) → Chars Solid s → Chars (Not b'|') s
no_bar s = Chars-map s (λ c h. h.1)

no_space : (s : Text) → Chars Solid s → Chars NoSpace s
no_space s = Chars-map s (λ c h. h.0)

fields_of : ListedJob → List Text
fields_of j = j.id ∷ j.name ∷ j.state ∷ j.elapsed ∷ j.time_limit ∷ j.node ∷ []

split-bar :
    (s t : Text) (parts : List Text)
    → Chars Solid s
    → split b'|' t ≡ parts
    → split b'|' (bar s t) ≡ s ∷ parts
split-bar s t parts h e = split_field b'|' s t (no_bar s h) ∙ ap (λ ps. s ∷ ps) e

split-render : (j : ListedJob) → IsPlain j → split b'|' (render j) ≡ fields_of j
unfolding fields_of
split-render j v = split-bar j.id _ _ v.id_solid (
    split-bar j.name _ _ v.name_solid (
      split-bar j.state _ _ v.state_solid (
        split-bar j.elapsed _ _ v.elapsed_solid (
          split-bar j.time_limit j.node _ v.time_limit_solid
            (split_last b'|' j.node (no_bar j.node v.node_solid))))))

parse_line-render : (j : ListedJob) → IsPlain j → parse_line (render j) ≡ some j
unfolding parse_line fields_of
parse_line-render j v =
    rw
      (
        split-render j v,
        strip_none j.id (no_space j.id v.id_solid),
        strip_none j.name (no_space j.name v.name_solid),
        strip_none j.state (no_space j.state v.state_solid),
        strip_none j.elapsed (no_space j.elapsed v.elapsed_solid),
        strip_none j.time_limit (no_space j.time_limit v.time_limit_solid),
        strip_none j.node (no_space j.node v.node_solid),
      )
      refl

bar-NoSpace : (s t : Text) → Chars Solid s → Chars NoSpace t → Chars NoSpace (bar s t)
bar-NoSpace s t h k = Chars-append NoSpace s (b'|' ∷ t) (no_space s h) (refl, k)

render-NoSpace : (j : ListedJob) → IsPlain j → Chars NoSpace (render j)
render-NoSpace j v = bar-NoSpace j.id _ v.id_solid (
    bar-NoSpace j.name _ v.name_solid (
      bar-NoSpace j.state _ v.state_solid (
        bar-NoSpace j.elapsed _ v.elapsed_solid
          (bar-NoSpace j.time_limit j.node v.time_limit_solid (no_space j.node v.node_solid)))))

-- The lines with line breaks between them alone.
abbrev joined : ListedJob → List ListedJob → Text
joined j [] = render j
joined j (k ∷ ks) = render j ++ b'\n' ∷ joined k ks

filled : (s : Text) (c : ℕ) (t : Text) → (x : ℕ) × (u : Text) × (s ++ c ∷ t ≡ x ∷ u)
filled [] c t = (c, t, refl)
filled (x ∷ s) c t = (x, s ++ c ∷ t, refl)

joined_filled : (j : ListedJob) (js : List ListedJob) → (x : ℕ) × (u : Text) × (joined j js ≡ x ∷ u)
joined_filled j [] =
    filled j.id b'|' (bar j.name (bar j.state (bar j.elapsed (bar j.time_limit j.node))))
joined_filled j (k ∷ ks) = filled (render j) b'\n' _

abbrev pub AllPlain : List ListedJob → Type 0
AllPlain [] = Unit
AllPlain (j ∷ js) = IsPlain j × AllPlain js

rstrip-render_all :
    (j : ListedJob) (js : List ListedJob)
    → AllPlain (j ∷ js)
    → rstrip (render_all (j ∷ js)) ≡ joined j js
unfolding rstrip
rstrip-render_all j [] v = rstrip_behind (render j) (b'\n' ∷ []) (render-NoSpace j v.0) refl
rstrip-render_all j (k ∷ ks) v =
    let (x, u, e) = joined_filled k ks in
    let rest = rstrip-render_all k ks v.1 ∙ e in
    let broken : rstrip (b'\n' ∷ render_all (k ∷ ks)) ≡ b'\n' ∷ x ∷ u = rw rest refl in
    rstrip_before (render j) (b'\n' ∷ render_all (k ∷ ks)) b'\n' (x ∷ u) broken
    ∙ ap (λ t. render j ++ b'\n' ∷ t) (sym e)

no_break : (s : Text) → Chars NoSpace s → Chars (Not b'\n') s
no_break s = Chars-map s (λ c h. ground arith)

split-joined :
    (j : ListedJob) (js : List ListedJob)
    → AllPlain (j ∷ js)
    → split b'\n' (joined j js) ≡ map render (j ∷ js)
split-joined j [] v = split_last b'\n' (render j) (no_break (render j) (render-NoSpace j v.0))
split-joined j (k ∷ ks) v =
    split_field b'\n' (render j) (joined k ks) (no_break (render j) (render-NoSpace j v.0))
    ∙ ap (λ t. render j ∷ t) (split-joined k ks v.1)

-- The jobs whose name starts with `opentela-`.
abbrev pub ours : List ListedJob → List ListedJob
ours [] = []
ours (j ∷ js) = if is_ours j then j ∷ ours js else ours js

parse_lines-render : (js : List ListedJob) → AllPlain js → parse_lines (map render js) ≡ ours js
unfolding parse_lines
parse_lines-render [] v = refl
parse_lines-render (j ∷ js) v = rw (parse_line-render j v.0, parse_lines-render js v.1) refl

skip_space_first : (x : ℕ) (u : Text) → NoSpace x → skip_space (x ∷ u) ≡ x ∷ u
unfolding skip_space
skip_space_first x u h = rw h refl

skip_space-bar : (s t r : Text) → Chars Solid s → skip_space (bar s t ++ r) ≡ bar s t ++ r
skip_space-bar [] t r h = skip_space_first b'|' (t ++ r) refl
skip_space-bar (c ∷ s) t r h = skip_space_first c (bar s t ++ r) h.0.0

lines_of_filled :
    (s : Text) (x : ℕ) (u : Text) → s ≡ x ∷ u → lines_of s ≡ parse_lines (split b'\n' s)
lines_of_filled [] x u e = cc
lines_of_filled (c ∷ s) x u e = refl

skip_space-render_all :
    (j : ListedJob) (js : List ListedJob)
    → AllPlain (j ∷ js)
    → skip_space (render_all (j ∷ js)) ≡ render_all (j ∷ js)
skip_space-render_all j js v = skip_space-bar j.id _ (b'\n' ∷ render_all js) v.0.id_solid

-- If no field of the jobs has white space or a bar, then `worker_list` reads from what `squeue`
-- prints of them, with the exit code 0, exactly those whose name starts with `opentela-`, in their
-- order and with all fields.
pub worker_list-render_all :
    (js : List ListedJob) → AllPlain js → worker_list 0 (render_all js) ≡ ours js
unfolding worker_list strip skip_space rstrip
worker_list-render_all [] v = refl
worker_list-render_all (j ∷ js) v =
    let (x, u, e) = joined_filled j js in
    ap lines_of (ap rstrip (skip_space-render_all j js v) ∙ rstrip-render_all j js v)
    ∙ lines_of_filled (joined j js) x u e
    ∙ ap parse_lines (split-joined j js v)
    ∙ parse_lines-render (j ∷ js) v
