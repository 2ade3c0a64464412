-- ===== src/Lib.antt =====
-- Verification of the web application of this repository (web/src): its session handling, the
-- sockets of its live rooms, and the logic of its editors and lists.
--
-- Parts and how they interact. Every page request passes the middleware (web/src/proxy.ts), which
-- validates the refresh token against a cache of published keys (web/src/lib/server-jwt.ts), looks
-- at the access token (web/src/lib/jwt-utils.ts) and writes cookies. Server actions
-- (web/src/actions) check the origin (web/src/lib/csrf.ts), call the auth service and write the
-- same cookies; the handlers under /api/rpc (web/src/lib/create-rpc-proxy.ts) turn the cookie into
-- a Bearer header. The pages of notes and boards open a socket per room
-- (web/src/lib/board-socket-manager.ts) with a ticket that an action fetches; a note sends the
-- patches of its changes through it and a board its whole document (Room/Client puts such a
-- component and its room together). The editor of a note (web/src/components/editor) and the canvas
-- of a board (web/src/modules/whiteboard) store their files through two more pairs of actions and
-- read them back by their keys. The dashboard (web/src/modules/workspace,
-- web/src/modules/dashboard) reads workspaces, members, notes and boards through a query cache, and
-- makes and takes invitations.
--
-- Files:
--   Common            shared types, Boolean tests, lists, association lists and maps.
--   Auth/Jwks         the key cache: `JwksState` is the two variables of server-jwt.ts, the awaits are
--                     the places where `Outside` acts on the shared state.
--   Auth/Validate     `validateRefreshToken`, with the jose package as the record `Jose`.
--   Auth/Token        `isAccessTokenExpiredOrMissing`.
--   Auth/Cookies      auth-cookie.ts and the writes of the two cookies.
--   Auth/Proxy        the middleware.
--   Auth/Csrf         the origin check.
--   Auth/Actions      web/src/actions/auth.ts; the auth service is the record `AuthService`.
--   Auth/Rpc          create-rpc-proxy.ts, server-access-token.ts and web/src/actions/ws-tickets.ts.
--   Room/State        the maps of board-socket-manager.ts for one room, and its helpers.
--   Room/Connect      `connectRoom`, cut at its await.
--   Room/Events       socket events, timers, `disconnectRoom`, `sendRoomMessage`, `getRoomState`.
--   Room/Invariant    the invariant of a room and its preservation, one file for each kind of event.
--   Room/Runs         runs: sequences of enabled events.
--   Room/Delivery, Room/Retries
--                     what runs deliver, and what becomes of retries and disconnects.
--   Room/Client       a component that uses a room: its own actions, with what they send, between the
--                     events of the room.
--   Board/Live        a canvas over its room.
--   Notes/Live        a note over its room: each change that it sends is a message of the room.
--   Notes/Blocks      `diffBlocks` and `applyPatch` of note-view.tsx.
--   Notes/Sync        the refs of `NoteView` and the handlers of its messages and changes.
--   Notes/Presence    the users and cursors of `NoteView`, and the throttle of cursor messages.
--   Poll              the handlers of poll-component.tsx.
--   Assets            the two actions of note-assets.ts, over an object store and a service.
--   Board             the document of whiteboard-canvas.tsx.
--   Workspace/Slug    `buildWorkspaceSlug` of use-workspaces.ts.
--   Room/Listeners    the sets of listeners of board-socket-manager.ts.
--   Auth/Rpc/Clients  rpc.ts, rpc-server.ts and the routes under web/src/app/api/rpc.
--   Auth/Proxy/Race   two requests at once, with an auth service that rotates its tokens.
--   Auth/Guards       the guards of server-auth.ts.
--   Auth/Client       `useAuth` and the user of polls, derived from the query of the current user.
--   Auth/Pages        the submission of the login and sign-up forms and the start page.
--   Auth/Typewriter   the typed text of the auth pages.
--   Notes/Color       `hashColor` and the identification sent to a room.
--   Poll/Calls        a poll from its creation on, through the calls of its handlers.
--   Poll/Texts        HTML and Markdown of a poll.
--   Sticky            HTML of a sticky note; Sticky/Note its component.
--   Assets/Boards     the two actions of whiteboard-assets.ts.
--   Assets/Canvas     `resolve` of the asset store in whiteboard-canvas.tsx.
--   Assets/Editor     the uploads of the editor's plugins and asset-image-renderer.tsx.
--   Board/Sending     the delayed sending of edits in whiteboard-canvas.tsx.
--   Board/Mermaid     pasted Mermaid text and mermaid-dialog.tsx.
--   Workspace/Members workspace-members-table.tsx; Workspace/Members/View workspace-members-view.tsx.
--   Workspace/Page    workspace-view.tsx and the links of workspace-library-table.tsx.
--   Workspace/Queries workspace-queries.ts, whiteboard-queries.ts and the hooks that run the queries.
--   Workspace/Mutations
--                     the mutations of the three modules and use-logout.ts over the query cache.
--   Workspace/Prefetch
--                     the pages under web/src/app that fetch on the server what their components
--                     read (workspace-server-queries.ts, notes-server-queries.ts,
--                     whiteboard-server-queries.ts).
--   Workspace/Invite  the invite page and its mutations.
--   Workspace/Navigation
--                     dashboard-sidebar.tsx.
-- The modules below these hold proofs; those whose names end in Tests hold concrete runs.
--
-- Bounds. All loops run over lists, texts or a number of digits or ticks and are structural, so no
-- fuel is used. Times are milliseconds in ℕ; a truncated difference is compared only with positive
-- bounds, where it agrees with the source.
--
-- Not modelled: the services and packages in Go (services, pkg) and the generated code (web/src/gen);
-- React rendering, styling and the component kit (web/src/components/ui); the editor and canvas
-- packages, the query cache, the network and the clock, which are parameters where the code relies on
-- them. A text is a list of code units where its length matters.
pub mod Common
pub mod Auth
pub mod Room
pub mod Notes
pub mod Workspace
pub mod Sticky
pub mod Poll
pub mod Assets
pub mod Board
