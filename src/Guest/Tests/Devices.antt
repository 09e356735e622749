-- ===== src/Guest/Tests/Devices.antt =====
-- The choice of a device at concrete inputs.
use lalah.Base.{◌≡◌, refl, true, none, some, List, [], ◌∷◌, ok}
use lalah.Guest.Devices.{
  Moniker, bstr, unreadable, is_match, device_name_from_moniker, walk, GraphCalls, Opened,
  open_graph, devices, empty, Categories, find_video_source,
}
use lalah.Guest.Devices.Choice.{
  IsFirst, choice, open_graph_lem, find_video_source-open_graph, device_of, no_error,
}

abbrev monikers : List Moniker
monikers =
    record { friendly_name = bstr "webcam"; device = 0 }
    ∷ record { friendly_name = unreadable; device = 1 }
    ∷ record { friendly_name = bstr "live gc573"; device = 2 }
    ∷ record { friendly_name = bstr "gc573 too"; device = 3 }
    ∷ []

abbrev all_well : GraphCalls
all_well = record {
  bind_to_object = none;
  create_graph = none;
  create_builder = none;
  set_filtergraph = none;
  add_filter = none;
  create_null = none;
  add_null = none;
  render_stream = none;
  media_control = none;
  media_event = none;
  run = none;
}

abbrev card : Opened
card = record { chosen = record { device = 2; name = "live gc573" }; null_renderer = true }

card_opens :
    open_graph (λ name. name) (some "gc573") true none (devices monikers) all_well ≡ ok card
unfolding open_graph walk is_match device_name_from_moniker
card_opens = refl

open_graph_lem_example :
    (m : Moniker) × IsFirst (λ name. name) (some "gc573") monikers m
    × (card.chosen ≡ choice m)
    × (card.null_renderer ≡ true)
    × (all_well.run ≡ none)
open_graph_lem_example =
    open_graph_lem (λ name. name) (some "gc573") true monikers all_well card card_opens

abbrev categories : Categories
categories = record { audio_input = empty; video_input = devices monikers }

find_video_source-open_graph_example :
    find_video_source (λ name. name) (some "gc573") ok none none categories
    ≡ device_of (open_graph (λ name. name) (some "gc573") true none (devices monikers) no_error)
find_video_source-open_graph_example =
    find_video_source-open_graph (λ name. name) (some "gc573") true categories monikers refl refl
