-- ===== src/Evidence/Reads/Events.antt =====
-- `events` and `eventTime` of internal/evidence/collector.go.
use kube_cure.Prelude.{ℕ, Bool, List, [], ◌∷◌, ◌++◌, ltb, ◌==◌, if◌then◌else◌}
use kube_cure.Text.{Text, codes, trim_space}
use kube_cure.Text.Numbers.{show_int, pad_right}
use kube_cure.Evidence.Collect.{Target, Gathered, content, unreadable}
use kube_cure.Evidence.Source.{Source, Event, Fetched, got, refused}
use kube_cure.Evidence.Reads.Summarise.{summarise}

abbrev pub event_limit : ℕ
event_limit = 50

unfoldable pub event_instant : Event → ℕ
event_instant e =
    if e.last_timestamp == 0
    then (if e.event_time == 0 then e.creation_timestamp else e.event_time)
    else e.last_timestamp

-- The test that the sort goes by.
unfoldable pub more_recent : Event → Event → Bool
unfolding event_instant
more_recent a b = ltb (event_instant b) (event_instant a)

unfoldable pub event_line : Event → Text
event_line e =
    e.type
    ++ (codes "  "
        ++ (pad_right 24 e.reason
            ++ (codes "  count="
                ++ (show_int e.count ++ (codes "  " ++ (trim_space e.message ++ codes "\n"))))))

unfoldable pub event_lines : List Event → Text
unfolding event_line
event_lines [] = []
event_lines (e ∷ rest) = event_line e ++ event_lines rest

unfoldable pub events_text : Source → Fetched (List Event) → Gathered
unfolding event_lines more_recent
events_text source (got items) = content (event_lines (source.sort_events more_recent items))
events_text source (refused e) = unreadable (codes "listing events: " ++ summarise e)

unfoldable pub events : Source → Target → Gathered
unfolding events_text
events source target =
    events_text source (source.list_events target.pod.namespace target.pod.name event_limit)
