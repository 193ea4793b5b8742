-- ===== src/Content/Examples.antt =====
-- An archive, and an XML document after some white space.
use otwarte_dane_transportow.Common.{◌≡◌, refl, false, [], ◌∷◌, Text, arith, none}
use otwarte_dane_transportow.History.{Protocol}
use otwarte_dane_transportow.Net.Failures.{returned}
use otwarte_dane_transportow.Content.Checks.{
  DataType, netex, Parsers, validate_static_feed_content, validate_static_feed_stream,
  validate_realtime_feed_content, validate_realtime_feed_stream,
}
use otwarte_dane_transportow.Content.Heads.{leading, stream_lem}

abbrev document : Text
document = 32 ∷ 10 ∷ b'<' ∷ b'x' ∷ b'>' ∷ []

accepted : validate_static_feed_content netex document ≡ returned tt
unfolding validate_static_feed_content
accepted = refl

abbrev no_parsers : Parsers
no_parsers = record { parse_feed_message = λ s. none; is_json = λ s. false }

stream_example :
    ((t : DataType)
      → validate_static_feed_stream t document ≡ validate_static_feed_content t document)
    × ((q : Protocol)
        → validate_realtime_feed_stream no_parsers q document
          ≡ validate_realtime_feed_content no_parsers q document)
unfolding leading
stream_example = stream_lem document no_parsers (omega arith)
