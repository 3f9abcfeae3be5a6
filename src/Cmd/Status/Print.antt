-- ===== src/Cmd/Status/Print.antt =====
-- `printStatus` of cmd/photinus/status.go: the lines, word by word.
use photinus.Prelude.{
  ℕ, String, Bool, false, ◌&&◌, ◌||◌, Option, none, some, List, [], ◌∷◌, ◌++◌, map, ltb, eqb, ◌==◌,
  ◌!=◌, ◌<>◌, cat, decimal, Dict, lookup, values, length, get_or, byte_length, has_prefix,
  trim_prefix, trim_suffix, replace_all, pad, if◌then◌else◌,
}
use photinus.Quorum.{Observation, Decision, state_up, state_warn, state_down}
use photinus.Lantern.Blackout.{SubjectStatus, join_names}
use photinus.Lantern.Status.{Status}
use photinus.Cmd.Status.{Palette, HostSection, downs, warns, sections, services}

unfoldable pub plural : ℕ → String
plural n = if eqb n 1 then "" else "s"

module _ (c : Palette) where
  down_part : ℕ → List String
  down_part n = if ltb 0 n then cat (c.down ∷ decimal n ∷ " down" ∷ c.reset ∷ []) ∷ [] else []

  warn_part : ℕ → List String
  warn_part n =
      if ltb 0 n then cat (c.warn ∷ decimal n ∷ " warning" ∷ plural n ∷ c.reset ∷ []) ∷ [] else []

  unfoldable pub headline : Status → String
  unfolding down_part warn_part
  headline st =
      let d = downs st.subjects in
      let w = warns st.subjects in
      cat (
        c.bold
        ∷ "lantern "
        ∷ st.id
        ∷ c.reset
        ∷ " "
        ∷ c.dim
        ∷ "·"
        ∷ c.reset
        ∷ " swarm "
        ∷ decimal (length st.swarm)
        ∷ " lit of "
        ∷ decimal st.last_known_size
        ∷ " known"
        ∷ [])
      <> (if eqb d 0 && eqb w 0 && ltb 0 (length st.subjects)
          then cat (" " ∷ c.dim ∷ "·" ∷ c.reset ∷ " " ∷ c.up ∷ "all quiet" ∷ c.reset ∷ [])
          else if ltb 0 d || ltb 0 w
          then cat
              (" " ∷ c.dim ∷ "·" ∷ c.reset ∷ " " ∷ join_names (down_part d ++ warn_part w) ∷ [])
          else "")

-- Whether two versions differ; an empty one counts as none seen so far.
mixed_from : String → List String → Bool
mixed_from first [] = false
mixed_from first (v ∷ vs) =
    let rest = mixed_from first vs in
    let fresh = mixed_from v vs in if first == "" then fresh else v != first || rest

unfoldable pub mixed : Dict String → Bool
unfolding mixed_from
mixed versions = mixed_from "" (values versions)

-- The details of a row without the words that the row says already.
unfoldable pub trim_detail : SubjectStatus → String
trim_detail s =
    let d = s.decision.detail in
    let base = s.decision.check in
    if has_prefix base "disk:"
    then trim_prefix d (cat ("disk " ∷ trim_prefix base "disk:" ∷ " is " ∷ []))
    else trim_prefix d (base <> " is ")

unfoldable pub agreement : Decision → String
agreement d =
    if eqb d.voters 0
    then "no fresh word"
    else if d.authority
    then "own report"
    else if d.state != state_up || ltb 0 d.votes
    then cat (decimal d.votes ∷ "/" ∷ decimal d.voters ∷ ", quorum " ∷ decimal d.needed ∷ [])
    else cat (decimal d.voters ∷ " lantern" ∷ plural d.voters ∷ [])

unfoldable pub max_width : (SubjectStatus → String) → List SubjectStatus → ℕ
max_width f [] = 0
max_width f (s ∷ ss) =
    let rest = max_width f ss in if ltb rest (byte_length (f s)) then byte_length (f s) else rest

module _ (c : Palette) where
  -- The word of a row and its colour.
  unfoldable pub row_word : SubjectStatus → String × String
  row_word s =
      if eqb s.decision.voters 0
      then ("?", c.dim)
      else if s.decision.state == state_down
      then ("DOWN", c.down)
      else if s.decision.state == state_warn
      then ("WARN", c.warn)
      else if ltb 0 s.decision.votes
      then ("sus", c.warn)
      else ("up", c.up)

  live_words : Option SubjectStatus → String
  live_words none = ""
  live_words (some s) =
      let d = s.decision in
      if eqb d.voters 0
      then cat (" " ∷ c.dim ∷ "· no fresh word" ∷ c.reset ∷ [])
      else if d.state == state_down
      then cat (
          " "
          ∷ c.dim
          ∷ "·"
          ∷ c.reset
          ∷ " "
          ∷ c.down
          ∷ "DARK, "
          ∷ decimal d.votes
          ∷ "/"
          ∷ decimal d.voters
          ∷ " agree, quorum "
          ∷ decimal d.needed
          ∷ c.reset
          ∷ [])
      else if ltb 0 d.votes
      then cat (
          " "
          ∷ c.dim
          ∷ "·"
          ∷ c.reset
          ∷ " "
          ∷ c.warn
          ∷ "suspected by "
          ∷ decimal d.votes
          ∷ " of "
          ∷ decimal d.voters
          ∷ ", quorum "
          ∷ decimal d.needed
          ∷ c.reset
          ∷ [])
      else cat (
          " "
          ∷ c.dim
          ∷ "·"
          ∷ c.reset
          ∷ " "
          ∷ c.up
          ∷ "lit"
          ∷ c.reset
          ∷ c.dim
          ∷ ", "
          ∷ decimal d.voters
          ∷ " vouch"
          ∷ c.reset
          ∷ [])

  clock_words : String → Option SubjectStatus → String
  clock_words target none = ""
  clock_words target (some s) =
      let d = s.decision in
      let off = d.state != state_up || ltb 0 d.votes in
      let said = replace_all d.detail (cat ("clock of " ∷ target ∷ " " ∷ [])) "clock " in
      let clock =
        if off then trim_suffix (replace_all said " with mine" "") " mine" else "clock in step" in
      if ltb 0 d.voters
      then cat (
          " "
          ∷ c.dim
          ∷ "·"
          ∷ c.reset
          ∷ " "
          ∷ (if off then c.warn else c.dim)
          ∷ clock
          ∷ c.reset
          ∷ [])
      else ""

  unfoldable pub host_header : HostSection → String
  unfolding live_words clock_words
  host_header sec =
      cat (c.bold ∷ sec.target ∷ c.reset ∷ [])
      <> live_words sec.live
      <> clock_words sec.target sec.skew

  -- The observations under a subject, when asked for.
  abbrev says : String → Observation → String
  says name o =
      cat (c.dim ∷ o.observer ∷ " says " ∷ name ∷ o.state ∷ ": " ∷ o.detail ∷ c.reset ∷ [])

  under : Bool → SubjectStatus → List String
  under verbose s = if verbose then map (λ o. "        " <> says "" o) s.observations else []

  under_header : Bool → Option SubjectStatus → List String
  under_header verbose none = []
  under_header verbose (some s) =
      if verbose then map (λ o. "  " <> says (s.decision.check <> " ") o) s.observations else []

  row_line : ℕ → SubjectStatus → String
  unfolding pad
  row_line width s =
      let (word, color) = row_word s in
      cat (
        "  "
        ∷ color
        ∷ pad 5 word
        ∷ c.reset
        ∷ " "
        ∷ pad width s.decision.check
        ∷ " "
        ∷ trim_detail s
        ∷ [])

  service_line : ℕ → SubjectStatus → String
  unfolding pad
  service_line width s =
      let (word, color) = row_word s in
      cat (
        "  "
        ∷ color
        ∷ pad 5 word
        ∷ c.reset
        ∷ " "
        ∷ pad width s.decision.target
        ∷ " "
        ∷ s.decision.detail
        ∷ " "
        ∷ c.dim
        ∷ "("
        ∷ agreement s.decision
        ∷ ")"
        ∷ c.reset
        ∷ [])

  lines_of : Bool → (SubjectStatus → String) → List SubjectStatus → List String
  unfolding under
  lines_of verbose line [] = []
  lines_of verbose line (s ∷ ss) = line s ∷ under verbose s ++ lines_of verbose line ss

  -- What the swarm runs, where it is not one version.
  runs_words : Dict String → Bool → String → String
  runs_words versions is_mixed name =
      let v = get_or (lookup name versions) "" in
      if is_mixed && v != "" then cat (" " ∷ c.dim ∷ "· runs " ∷ v ∷ c.reset ∷ []) else ""

  section_lines : Bool → Dict String → HostSection → List String
  unfolding runs_words under_header row_line lines_of
  section_lines verbose versions sec =
      ""
        ∷ (host_header sec <> runs_words versions (mixed versions) sec.target)
        ∷ under_header verbose sec.live
      ++ under_header verbose sec.skew
      ++ lines_of verbose (row_line (max_width (λ s. s.decision.check) sec.rows)) sec.rows

  all_sections : Bool → Dict String → List HostSection → List String
  unfolding section_lines
  all_sections verbose versions [] = []
  all_sections verbose versions (sec ∷ secs) =
      section_lines verbose versions sec ++ all_sections verbose versions secs

  service_lines : Bool → List SubjectStatus → List String
  unfolding service_line lines_of
  service_lines verbose [] = []
  service_lines verbose (s ∷ ss) =
      ""
      ∷ cat (c.bold ∷ "watched services" ∷ c.reset ∷ [])
      ∷ lines_of verbose (service_line (max_width (λ t. t.decision.target) (s ∷ ss))) (s ∷ ss)

  -- `printStatus`: the lines.
  unfoldable pub print_status : Status → Bool → List String
  unfolding all_sections service_lines
  print_status st verbose =
      if eqb (length st.subjects) 0
      then headline c st ∷ "no checks reporting yet" ∷ []
      else headline c st ∷ all_sections verbose st.versions (sections st.subjects)
        ++ service_lines verbose (services st.subjects)
