-- ===== src/Objects/Media.antt =====
-- internal/objectstore/stream.go: the media type of an extension.
use k8s_ai.Base.{List, [], ◌∷◌, Text, codes, ◌==◌, text_eq, if◌then◌else◌}

-- `mediaTypes`.
unfoldable pub media_types : List (Text × Text)
media_types =
    (codes ".md", codes "text/markdown; charset=utf-8")
    ∷ (codes ".json", codes "application/json")
    ∷ (codes ".csv", codes "text/csv; charset=utf-8")
    ∷ (codes ".txt", codes "text/plain; charset=utf-8")
    ∷ (codes ".log", codes "text/plain; charset=utf-8")
    ∷ (codes ".yaml", codes "application/yaml")
    ∷ (codes ".yml", codes "application/yaml")
    ∷ (codes ".html", codes "text/html; charset=utf-8")
    ∷ (codes ".svg", codes "image/svg+xml")
    ∷ (codes ".png", codes "image/png")
    ∷ (codes ".jpg", codes "image/jpeg")
    ∷ (codes ".jpeg", codes "image/jpeg")
    ∷ (codes ".gif", codes "image/gif")
    ∷ (codes ".webp", codes "image/webp")
    ∷ (codes ".pdf", codes "application/pdf")
    ∷ (codes ".zip", codes "application/zip")
    ∷ (codes ".gz", codes "application/gzip")
    ∷ (codes ".tar", codes "application/x-tar")
    ∷ []

abbrev pub lookup : Text → List (Text × Text) → Text → Text
lookup ext [] fallback = fallback
lookup ext ((e, m) ∷ rest) fallback =
    let later = lookup ext rest fallback in if e == ext then m else later

-- `GuessMediaType`.
unfoldable pub guess_media_type : Text → Text
guess_media_type ext = lookup ext media_types (codes "application/octet-stream")

-- `ResolveMediaType`.
unfoldable pub resolve_media_type : Text → Text → Text
resolve_media_type [] ext = guess_media_type ext
resolve_media_type (c ∷ s) ext = c ∷ s
