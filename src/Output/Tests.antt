-- ===== src/Output/Tests.antt =====
-- Runs of the capture, the renderers and the shares.
use chatgpt_web_oauth_mcp.Prelude.Dict.{put, get}
use chatgpt_web_oauth_mcp.Prelude.{
  text_eq, ◌≡◌, refl, true, none, some, List, [], ◌∷◌, Text, codes, length, ok, err,
}
use chatgpt_web_oauth_mcp.FileSystem.{Bytes, Codec}
use chatgpt_web_oauth_mcp.Budget.{measure, fits, Counting, Measuring}
use chatgpt_web_oauth_mcp.Budget.Ends.{Ends}
use chatgpt_web_oauth_mcp.Output.Capture.{Capture, new_capture, add_all}
use chatgpt_web_oauth_mcp.Output.Capture.Windows.{add_all-retains}
use chatgpt_web_oauth_mcp.Output.Units.{decode_utf8_units}
use chatgpt_web_oauth_mcp.Output.JobText.{RenderedOutput, render_job_output}
use chatgpt_web_oauth_mcp.Output.JobText.Progress.{Resumes, render_job_output-Resumes}
use chatgpt_web_oauth_mcp.Output.Shares.{allocate_stream_token_budgets}
use chatgpt_web_oauth_mcp.Output.Shares.Bounds.{Bounded, allocate_stream_token_budgets-Bounded}
use chatgpt_web_oauth_mcp.Output.Truncate.{truncate_text_to_tokens}
use chatgpt_web_oauth_mcp.Output.Render.{Both, initial_texts, render_captured_output}
use chatgpt_web_oauth_mcp.Output.Render.Presents.{Presented, render_captured_output-Presented}

-- A token for each character, a byte for each character.
abbrev plain_counting : Counting
plain_counting = record { byte_count = λ t. length t; encoded_length = λ t. some (length t) }

abbrev plain_codec : Codec
plain_codec = record { decode = λ raw. raw; encode = λ text. text }

abbrev two_chunks : List Bytes
two_chunks = codes "ab\r" ∷ codes "\ncd" ∷ []

add_all-retains_example : (add_all two_chunks (new_capture 4)).head ≡ codes "ab"
add_all-retains_example = (add_all-retains 4 two_chunks).0

render_job_output-Resumes_example :
    Ends plain_counting
      (Resumes plain_counting
        (record { max_tokens = 1; max_bytes = none })
        (codes "ab")
        (decode_utf8_units plain_codec true (codes "ab")).0)
      (render_job_output plain_codec plain_counting
        (record { max_tokens = 1; max_bytes = none })
        true
        (codes "ab"))
render_job_output-Resumes_example =
    render_job_output-Resumes plain_codec plain_counting
      (record { max_tokens = 1; max_bytes = none }) true (codes "ab")

shown_content : Measuring RenderedOutput → Text
shown_content (ok r) = r.content
shown_content (err e) = []

job_output_shows_one :
    shown_content (
      render_job_output plain_codec plain_counting
        (record { max_tokens = 1; max_bytes = none })
        true
        (codes "ab"))
    ≡ codes "a"
unfolding render_job_output decode_utf8_units fits measure shown_content
job_output_shows_one = refl

allocate_stream_token_budgets-Bounded_example :
    Bounded
      ((codes "a", 9) ∷ (codes "b", 2) ∷ (codes "c", 8) ∷ [])
      11
      (allocate_stream_token_budgets ((codes "a", 9) ∷ (codes "b", 2) ∷ (codes "c", 8) ∷ []) 11)
allocate_stream_token_budgets-Bounded_example =
    allocate_stream_token_budgets-Bounded ((codes "a", 9) ∷ (codes "b", 2) ∷ (codes "c", 8) ∷ []) 11

shares_are_filled :
    allocate_stream_token_budgets ((codes "a", 9) ∷ (codes "b", 2) ∷ (codes "c", 8) ∷ []) 11
    ≡ some ((codes "a", 5) ∷ (codes "b", 2) ∷ (codes "c", 4) ∷ [])
unfolding allocate_stream_token_budgets get text_eq put
shares_are_filled = refl

middle_is_cut : truncate_text_to_tokens plain_counting (codes "abcdef") 4 ≡ ok (codes "ab…f", true)
unfolding truncate_text_to_tokens
middle_is_cut = refl

-- A stream that was read in one chunk.
abbrev in_one_chunk : Text → Capture
in_one_chunk text = add_all (text ∷ []) (new_capture 40)

abbrev both_streams : Both Capture
both_streams = record { out = in_one_chunk (codes "abc\ndef\n"); error = in_one_chunk (codes "xy") }

render_captured_output-Presented_example :
    Ends plain_counting
      (Presented plain_counting 6 both_streams
        (initial_texts plain_counting 6 plain_codec both_streams))
      (render_captured_output plain_counting 6 plain_codec (codes "o200k_base") both_streams 80)
render_captured_output-Presented_example =
    render_captured_output-Presented plain_counting 6 plain_codec (codes "o200k_base") both_streams
      80 refl
