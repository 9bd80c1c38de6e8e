-- ===== src/Lib.antt =====
-- The logic of the web client: frontend/src. The client is a Next.js application in front of an API
-- gateway: a middleware guards the pages by the role in a token that a cookie holds; hooks send
-- requests through one HTTP client; pages keep lists, filter and sort them, and send changes.
--
-- * Base holds what the rest shares: Boolean tests and lists on native numbers (Tests, Lists), strings
--   as lists of UTF-16 code units with the methods that the sources call (Strings), the values that
--   JSON.parse returns (Json), the numbers of JavaScript as interfaces (Number, Real), and the stable sort
--   of arrays (Sort).
-- * Access models types/routes.ts, types/jwt.ts and utils/redirect.ts; Access/Base64 is atob and btoa
--   of the browser, Access/Token is utils/jwt.ts, Access/Cookie is utils/cookies.client.ts and
--   Access/Middleware is middleware.ts, whose `middleware` takes the path and the cookie to an answer.
-- * Benchmarks models features/benchmark: the records of types/dtos.ts, the filters and their panel
--   (Filters), the options of the panel (Options), the list of components/benchmarks-page.tsx
--   (Listing) and components/benchmark-card/format.ts (Format).
-- * Api models services/api.ts, from the request that is prepared to the result; Api/Endpoints holds
--   the calls of the features' api modules.
-- * Requests models the hooks of the features as transformers of their state cells: the two halves of
--   an asynchronous call (Requests), a call run to its end (Hooks), each hook (Features), signing in
--   and out (Session), interleavings of overlapping calls (Traces), and the handlers of the pages that
--   manage a list (Pages), with the search of the games (Pages/Search).
-- * Forms models the validation schemas of features/*/schemas, and Recovery the steps of
--   features/authentication/components/forgot-password/forgot-password-steps.tsx, as a step relation.
-- * Hardware models the forms that features/hardware builds from lists of fields:
--   types/fieldConfig.ts and schemas/buildHardwareSchema.ts. Its children hold types/dtos.ts (Dtos), the
--   six resources of config.ts (Config, Columns), and the search of
--   components/hardware-resource-panel.tsx with the values of the edit form (Items).
-- * BuildPc models the page of features/build-pc that asks for a build: its state and handlers, what may
--   happen to it (Steps), and the cards of the answer (Dtos).
-- * Benchmarks/Creating models features/benchmark/components/create-benchmarks-page.tsx, on the schema
--   of Forms and the hook of Requests.
-- * Navigation models components/hamburger-menu.tsx and components/navbar.tsx, on the routes of Access.
-- * Canvas models components/canvas-layer-driver.tsx: a frame as a list of operations, a drawing context
--   that performs them (Context), and the animation loop as a step relation (Scheduler).
-- * Scenes models the WebGL scenes of features/home: the effect of hooks/useThreeScene.ts as a step relation
--   (Frames), the disposal and the glows of utils/three.ts (Disposal, Glow), and the bars, the sweep and the
--   controller of components/benchmark-chart-scene.tsx (Chart), on the numbers of Random, and the motion of
--   components/pc-model-scene.tsx (PcModel).
-- * Backgrounds models the layers of the driver: components/mote-field.tsx (Motes), milky-way-field.tsx
--   (Galaxy), and features/home/components/split-field.tsx, which gives each a half (Split).
-- * Catalogue holds the sample records of utils/benchmarks.ts.
-- * Random models the seeded generator of features/home/utils/three.ts, Panels
--   features/benchmark/components/layout/resizable-panel-group.tsx, and BackButton
--   components/back-button.tsx.
-- * Dialogs models the dialogs of features/users and features/hardware that send a form, on Forms and
--   Hardware; Dialogs/Images models those of features/games, with the image that is read meanwhile.
-- * Images models features/games/utils/imageBytes.ts.
-- * Examples applies the theorems to concrete inputs.
--
-- The parts meet in the cookie: signing in sets it, the HTTP client sends it, the middleware reads it.
-- Code outside the repository is a parameter: fetch, JSON.parse, JSON.stringify, the cookie store,
-- zod's test of an email, the conversion to a property key, toUpperCase, toLowerCase, toLocaleString,
-- trim, Date, URLSearchParams, the functions of Math on fractions, and those of three.js.
-- What the browser itself does is modelled by its documented behaviour where a component rests on it:
-- the stack of a drawing context, the frame requests, the input of a range.
-- Numbers are an interface whose laws hold of finite IEEE 754 numbers. Functions are structurally
-- recursive; the loop over the chunks of an image has fuel for each byte, of which a turn takes one
-- at least, and the bound of `visit` counts the redirects that a browser follows.
--
-- Not modelled: markup, styles, toasts of the builder page; the geometry, the lights and the camera of
-- the scenes, which are calls of three.js; the average colour of the selected games; the services
-- behind the gateway, which are written in other languages and appear as the answers of fetch.
pub mod Base
pub mod Access
pub mod Benchmarks
pub mod Api
pub mod Requests
pub mod Forms
pub mod Recovery
pub mod Hardware
pub mod Images
pub mod Navigation
pub mod Canvas
pub mod BuildPc
pub mod Random
pub mod Scenes
pub mod Catalogue
pub mod Backgrounds
pub mod Panels
pub mod BackButton
pub mod Dialogs
pub mod Examples
